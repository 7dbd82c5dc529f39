-- ===== src/WebRtc/IceLite/Username.antt =====
-- Which USERNAME values `stun_username_matches` (src/webrtc/ice_lite.c) accepts.
use ideal_broccoli.Base.{
  ℕ, zero, suc, ◌+◌, ◌-◌, ◌<◌, ◌≡◌, ◌≢◌, ◌⊎◌, ◌↔◌, inl, inr, refl, sym, ap, ap₂, ◌∙◌, subst, subst₂,
  Bool, true, false, ◌&&◌, Bool-cases, Option, none, some, Option-cases, List, [], ◌∷◌, ◌++◌, arith,
  ltb, ◌==◌, All, length, get_or, take, drop, slice, take-length, take-append, length-append,
  length-drop, list_eq, list_eq_refl, list_eq-eq,
}
use ideal_broccoli.WebRtc.IceLite.{
  find_byte, username_has, stun_find_attribute, stun_username_matches,
}
use ideal_broccoli.WebRtc.IceLite.Walk.{stun_find_attribute_total}

split_at : (n : ℕ) (xs : List ℕ) → n < length xs → xs ≡ take n xs ++ get_or xs n 0 ∷ drop (suc n) xs
split_at n [] h = absurd (omega arith)
split_at zero (x ∷ xs) h = refl
split_at (suc n) (x ∷ xs) h = ap (◌∷◌ x) (split_at n xs (omega arith))

-- The first place of a byte.
abbrev First : ℕ → List ℕ → ℕ → Type 0
First c xs i = (i < length xs) × (get_or xs i 0 ≡ c) × All (λ x. x ≢ c) (take i xs)

-- `memchr` finds it.
find_byte-First : (c : ℕ) (xs : List ℕ) (i : ℕ) → find_byte c xs ≡ some i → First c xs i
unfolding find_byte
find_byte-First c [] i h = absurd (ground arith)
find_byte-First c (x ∷ xs) i h = elim (Bool-cases (x == c)) [
  | inl e ↦
      let is_first : 0 ≡ i = ground (arith, e) in
      subst (First c (x ∷ xs)) is_first (omega arith, ground arith, tt)
  | inr e ↦ elim (Option-cases (find_byte c xs)) [
    | inl absent ↦ absurd (ground (arith, e, absent))
    | inr (j, found) ↦
        let is_later : suc j ≡ i = ground (arith, e, found) in
        let later = find_byte-First c xs j found in
        subst (First c (x ∷ xs)) is_later
          (omega (arith, later.0), later.1, ((λ same. ground (arith, e)), later.2))
  ]
]

find_byte-append :
    (c : ℕ) (xs ys : List ℕ) → All (λ x. x ≢ c) xs → find_byte c (xs ++ c ∷ ys) ≡ some (length xs)
unfolding find_byte
find_byte-append c [] ys h = ground arith
find_byte-append c (x ∷ xs) ys h =
    let differ : (x == c) ≡ false = ground (arith, h.0) in
    let step : length xs + 1 ≡ suc (length xs) = omega arith in
    rw (differ, find_byte-append c xs ys h.1) (ap some step)

-- The fragment is the first part of the name, or all behind the first colon.
pub Names : List ℕ → List ℕ → Type 0
Names username ufrag =
    ((rest : List ℕ) × (username ≡ ufrag ++ 58 ∷ rest))
    ⊎ ((first : List ℕ) × (username ≡ first ++ 58 ∷ ufrag) × All (λ x. x ≢ 58) first)

-- The first test.
abbrev is_first : List ℕ → List ℕ → Bool
is_first username ufrag =
    ltb (length ufrag) (length username)
    && (get_or username (length ufrag) 0 == 58 && list_eq (take (length ufrag) username) ufrag)

get_or-append : (xs ys : List ℕ) (y : ℕ) → get_or (xs ++ y ∷ ys) (length xs) 0 ≡ y
get_or-append [] ys y = refl
get_or-append (x ∷ xs) ys y = get_or-append xs ys y

drop-append : (xs ys : List ℕ) (y : ℕ) → drop (suc (length xs)) (xs ++ y ∷ ys) ≡ ys
drop-append [] ys y = refl
drop-append (x ∷ xs) ys y = drop-append xs ys y

username_has-Names :
    (username ufrag : List ℕ) → username_has username ufrag ≡ true → Names username ufrag
unfolding username_has Names
username_has-Names username ufrag h = elim (Bool-cases (is_first username ufrag)) [
  | inl e ↦
      let same : get_or username n 0 ≡ 58 = ground (arith, e) in
      let front = list_eq-eq (take n username) ufrag (ground (arith, e)) in
      inl (
        drop (suc n) username,
        split_at n username (ground (arith, e))
            ∙ ap₂ (λ a c. a ++ c ∷ drop (suc n) username) front same,
      )
  | inr e ↦ elim (Option-cases (find_byte 58 username)) [
    | inl absent ↦ absurd (ground (arith, h, e, absent))
    | inr (k, found) ↦
        let at = find_byte-First 58 username k found in
        let size = length username - (k + 1) in
        let all_behind : slice username (k + 1) size ≡ drop (k + 1) username =
          ap (λ m. take m (drop (k + 1) username)) (sym (length-drop (k + 1) username))
          ∙ take-length (drop (k + 1) username) in
        let behind = list_eq-eq (slice username (k + 1) size) ufrag (ground (arith, h, e, found)) in
        let next : suc k ≡ k + 1 = omega arith in
        inr (
          take k username,
          split_at k username at.0
              ∙ ap₂ (λ c b. take k username ++ c ∷ b) at.1
                  (ap (λ m. drop m username) next ∙ sym all_behind ∙ behind),
          at.2,
        )
  ]
]
  where
    n : ℕ
    n = length ufrag

Names-username_has :
    (username ufrag : List ℕ) → Names username ufrag → username_has username ufrag ≡ true
unfolding username_has Names
Names-username_has username ufrag (inl (rest, e)) =
    subst (λ u. username_has u ufrag ≡ true) (sym e) (rw front refl)
  where
    front : is_first (ufrag ++ 58 ∷ rest) ufrag ≡ true
    front =
        rw (get_or-append ufrag rest 58, take-append ufrag (58 ∷ rest), list_eq_refl ufrag)
          (ground (arith, length-append ufrag (58 ∷ rest)))
Names-username_has username ufrag (inr (first, e, none_before)) =
    subst (λ u. username_has u ufrag ≡ true) (sym e)
      (elim (Bool-cases (is_first whole ufrag)) [
        | inl f ↦ rw f refl
        | inr f ↦ rw (f, find_byte-append 58 first ufrag none_before, behind) (ground arith)
      ])
  where
    whole : List ℕ
    whole = first ++ 58 ∷ ufrag

    size : length whole - (length first + 1) ≡ length ufrag
    size = omega (arith, length-append first (58 ∷ ufrag))

    next : length first + 1 ≡ suc (length first)
    next = omega arith

    behind :
        (length whole - (length first + 1) == length ufrag
          && list_eq (slice whole (length first + 1) (length whole - (length first + 1))) ufrag)
        ≡ true
    behind =
        rw (size, next, drop-append first ufrag 58, take-length ufrag, list_eq_refl ufrag)
          (ground arith)

-- The first USERNAME of the message names the fragment.
pub Named : List ℕ → List ℕ → Type 0
Named buf ufrag =
    (value : ℕ) × (len : ℕ) × (stun_find_attribute buf 0x0006 ≡ some (some (value, len)))
    × Names (slice buf value len) ufrag

-- For a fragment that is not empty and a message of any bytes, `stun_username_matches` returns, and
-- it returns true exactly if the first USERNAME of the message is the fragment, a colon and
-- anything, or something without a colon, a colon and the fragment.
pub username_matches-Named :
    (buf ufrag : List ℕ)
    → 0 < length ufrag
    → (b : Bool) × (stun_username_matches buf ufrag ≡ some b) × ((b ≡ true) ↔ Named buf ufrag)
unfolding stun_username_matches Named
username_matches-Named buf ufrag pos =
    let test : (length ufrag == 0) ≡ false = ground arith in
    go (stun_find_attribute_total buf 0x0006).0 (stun_find_attribute_total buf 0x0006).1 test
  where
    go :
        (r : Option (ℕ × ℕ))
        → stun_find_attribute buf 0x0006 ≡ some r
        → (length ufrag == 0) ≡ false
        → (b : Bool) × (stun_username_matches buf ufrag ≡ some b) × ((b ≡ true) ↔ Named buf ufrag)
    go none e test =
        rw (stun_username_matches, test, e)
          (false, refl, ((λ h. absurd (ground arith)), (λ g. absurd (ground (arith, g.2)))))
    go (some (value, len)) e test =
        rw (stun_username_matches, test, e)
          (
            username_has (slice buf value len) ufrag,
            refl,
            (
              (λ h. (value, len, refl, username_has-Names (slice buf value len) ufrag h)),
              (λ g.
                  let same_value : g.0 ≡ value = ground (arith, g.2) in
                  let same_len : g.1 ≡ len = ground (arith, g.2) in
                  Names-username_has (slice buf value len) ufrag
                    (subst₂ (λ o n. Names (slice buf o n) ufrag) same_value same_len g.3)),
            ),
          )
