-- ===== src/WebRtc/Dtls/Tests.antt =====
-- The queue, the fingerprint and the keys at concrete values.
use ideal_broccoli.Base.{
  ℕ, ◌+◌, ◌-◌, ◌≡◌, ◌⊎◌, ◌↔◌, refl, Bool, true, none, some, List, [], ◌∷◌, ◌++◌, arith,
  if◌then◌else◌, leb, length, drop, tabulate,
}
use ideal_broccoli.WebRtc.Dtls.{
  DtlsSrtp, create, bio_rx_read, enqueue, fingerprint_text, fingerprint_hex_equal, client_key,
}
use ideal_broccoli.WebRtc.Dtls.Queue.{
  IsValid, waiting, create-IsValid, enqueue_refines, bio_rx_read_refines,
}
use ideal_broccoli.WebRtc.Dtls.Fingerprint.{fingerprint_hex_equal_iff}

abbrev fresh : DtlsSrtp
fresh = create []

abbrev queued : DtlsSrtp
queued = enqueue true (22 ∷ []) fresh

enqueue_refines_example :
    (waiting (enqueue true (23 ∷ []) queued)
      ≡ drop (length (waiting queued) + 1 - 64) (waiting queued)
        ++ (if true then (23 ∷ []) ∷ [] else []))
    × IsValid (enqueue true (23 ∷ []) queued)
enqueue_refines_example =
    enqueue_refines true (23 ∷ []) queued
      (enqueue_refines true (22 ∷ []) fresh (create-IsValid []).0).1

bio_rx_read_refines_example :
    ((waiting queued ≡ []) × (bio_rx_read 4096 queued ≡ (none, queued)))
    ⊎ ((packet : List ℕ) × (waiting queued ≡ packet ∷ waiting (bio_rx_read 4096 queued).1)
        × ((bio_rx_read 4096 queued).0 ≡ (if leb (length packet) 4096 then some packet else none))
        × IsValid (bio_rx_read 4096 queued).1)
bio_rx_read_refines_example =
    bio_rx_read_refines 4096 queued (enqueue_refines true (22 ∷ []) fresh (create-IsValid []).0).1

fingerprint_hex_equal_iff_example :
    (text : List ℕ) × (accepted : Bool) × (fingerprint_text (0xAB ∷ 0x01 ∷ []) ≡ some text)
    × (fingerprint_hex_equal text (0xAB ∷ 0x02 ∷ []) ≡ some accepted)
    × ((accepted ≡ true) ↔ ◌≡◌ {A = List ℕ} (0xAB ∷ 0x01 ∷ []) (0xAB ∷ 0x02 ∷ []))
fingerprint_hex_equal_iff_example =
    fingerprint_hex_equal_iff (0xAB ∷ 0x01 ∷ []) (0xAB ∷ 0x02 ∷ []) (omega arith) (omega arith)
      (omega arith) (omega arith)

-- A browser may write "sha-256 ab:01".
lower_case :
    fingerprint_hex_equal
      (115 ∷ 104 ∷ 97 ∷ 45 ∷ 50 ∷ 53 ∷ 54 ∷ 32 ∷ 97 ∷ 98 ∷ 58 ∷ 48 ∷ 49 ∷ [])
      (0xAB ∷ 0x01 ∷ [])
    ≡ some true
unfolding fingerprint_hex_equal
lower_case = refl

-- The bytes 0 to 59 as exported material.
client_key_layout :
    client_key (tabulate 60 λ k. k) ≡ tabulate 16 (λ k. k) ++ tabulate 14 (λ k. k + 32)
client_key_layout = refl
