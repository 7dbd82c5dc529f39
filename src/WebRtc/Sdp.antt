-- ===== src/WebRtc/Sdp.antt =====
-- The parse of an offer in src/webrtc/sdp.c. A text is the list of its bytes; a field of the offer is
-- the part in front of the byte 0 that ends it.
pub mod Fields
mod Tests
use ideal_broccoli.Base.{
  ℕ, zero, suc, ◌+◌, ◌-◌, Bool, true, false, not, ◌&&◌, ◌||◌, Option, none, some, List, [], ◌∷◌,
  ltb, leb, ◌==◌, if◌then◌else◌, length, list_eq, take, drop, text,
}
use ideal_broccoli.Base.Strtol.{Int32, atoi}

pub record SdpOffer : Type 0 where
  pub ice_ufrag : List ℕ
  pub ice_pwd : List ℕ
  pub fingerprint : List ℕ
  pub setup : List ℕ
  pub video_mid : List ℕ
  pub audio_mid : List ℕ
  pub has_audio : Bool
  pub h264_payload_type : Int32
  pub h264_packetization_mode : ℕ

pub record ParseContext : Type 0 where
  pub offer : SdpOffer
  pub have_ufrag : Bool
  pub have_pwd : Bool
  pub have_fingerprint : Bool

-- The media section in which a line stands.
pub data Media : Type 0 where
  session : Media
  audio : Media
  video : Media

-- `strncmp` over the whole prefix.
abbrev pub starts : List ℕ → List ℕ → Bool
starts prefix line = list_eq (take (length prefix) line) prefix

-- `strstr`.
pub contains : List ℕ → List ℕ → Bool
contains needle [] = length needle == 0
contains needle (c ∷ cs) = starts needle (c ∷ cs) || contains needle cs

-- The loop of `copy_value`, with the bytes that are left in the buffer for it.
pub copy_on : ℕ → List ℕ → List ℕ
copy_on zero value = []
copy_on (suc room) [] = []
copy_on (suc room) (c ∷ cs) =
    let rest = copy_on room cs in if c == 0 || c == 13 || c == 10 then [] else c ∷ rest

-- The new content of the buffer `out`.
pub copy_value : List ℕ → List ℕ → List ℕ → ℕ → List ℕ
unfolding copy_on
copy_value line prefix out out_size =
    if starts prefix line then copy_on (out_size - 1) (drop (length prefix) line) else out

-- The lines as the loop cuts them: each ends in front of a line feed or at the end of the text.
pub lines : List ℕ → List (List ℕ)
lines [] = []
lines (c ∷ cs) =
    let rest = lines cs in
    if c == 10
    then [] ∷ rest
    else elim rest [ [] ↦ (c ∷ []) ∷ [] | line ∷ more ↦ (c ∷ line) ∷ more ]

-- A line without the carriage returns at its end.
pub strip : List ℕ → List ℕ
strip [] = []
strip (c ∷ cs) = let rest = strip cs in if c == 13 && length rest == 0 then [] else c ∷ rest

-- A buffer as a C string: the bytes in front of the first 0.
pub c_string : List ℕ → List ℕ
c_string [] = []
c_string (c ∷ cs) = let rest = c_string cs in if c == 0 then [] else c ∷ rest

-- The copy of a line, cut to 511 bytes.
abbrev pub line_buffer : List ℕ → List ℕ
line_buffer line = c_string (take 511 (strip line))

abbrev pub next_media : List ℕ → Media → Media
next_media line media =
    if starts (text "m=") line
    then (if starts (text "audio") (drop 2 line)
        then Media.audio
        else if starts (text "video") (drop 2 line)
        then Media.video
        else Media.session)
    else media

abbrev pub is_video : Media → Bool
is_video Media.session = false
is_video Media.audio = false
is_video Media.video = true

abbrev pub is_audio : Media → Bool
is_audio Media.session = false
is_audio Media.audio = true
is_audio Media.video = false

abbrev pub same_int : Int32 → Int32 → Bool
same_int (true, m) (true, n) = m == n
same_int (true, m) (false, n) = false
same_int (false, m) (true, n) = false
same_int (false, m) (false, n) = m == n

-- An `a=rtpmap:` line of the video section, and an `a=fmtp:` line.
pub on_rtpmap : List ℕ → SdpOffer → SdpOffer
on_rtpmap line offer =
    if contains (text "H264/90000") line && offer.h264_payload_type.0
    then record offer { h264_payload_type = atoi (drop 9 line) }
    else offer

pub on_fmtp : List ℕ → SdpOffer → SdpOffer
on_fmtp line offer =
    if same_int (atoi (drop 7 line)) offer.h264_payload_type
      && contains (text "packetization-mode=0") line
    then record offer { h264_packetization_mode = 0 }
    else offer

pub parse_visit : List ℕ → Media → ParseContext → ParseContext
unfolding copy_value on_rtpmap on_fmtp
parse_visit line media ctx =
    let offer = ctx.offer in
    if starts (text "a=ice-ufrag:") line
    then record ctx {
      offer = record offer { ice_ufrag = copy_value line (text "a=ice-ufrag:") offer.ice_ufrag 80 };
      have_ufrag = true;
    }
    else if starts (text "a=ice-pwd:") line
    then record ctx {
      offer = record offer { ice_pwd = copy_value line (text "a=ice-pwd:") offer.ice_pwd 128 };
      have_pwd = true;
    }
    else if starts (text "a=fingerprint:") line
    then record ctx {
      offer = record offer {
        fingerprint = copy_value line (text "a=fingerprint:") offer.fingerprint 128;
      };
      have_fingerprint = true;
    }
    else if starts (text "a=setup:") line
    then record ctx {
      offer = record offer { setup = copy_value line (text "a=setup:") offer.setup 24 };
    }
    else if is_video media && starts (text "a=mid:") line
    then record ctx {
      offer = record offer { video_mid = copy_value line (text "a=mid:") offer.video_mid 24 };
    }
    else if is_audio media && starts (text "a=mid:") line
    then record ctx {
      offer = record offer {
        audio_mid = copy_value line (text "a=mid:") offer.audio_mid 24;
        has_audio = true;
      };
    }
    else if is_video media && starts (text "a=rtpmap:") line
    then record ctx { offer = on_rtpmap line offer }
    else if is_video media && starts (text "a=fmtp:") line
    then record ctx { offer = on_fmtp line offer }
    else ctx

pub for_each_line : List (List ℕ) → Media → ParseContext → ParseContext
for_each_line [] media ctx = ctx
for_each_line (cut ∷ cuts) media ctx =
    let line = line_buffer cut in
    let media' = next_media line media in for_each_line cuts media' (parse_visit line media' ctx)

pub no_offer : ParseContext
no_offer = record {
  offer = record {
    ice_ufrag = [];
    ice_pwd = [];
    fingerprint = [];
    setup = [];
    video_mid = [];
    audio_mid = [];
    has_audio = false;
    h264_payload_type = (true, 1);
    h264_packetization_mode = 1;
  };
  have_ufrag = false;
  have_pwd = false;
  have_fingerprint = false;
}

-- The tests behind the loop; `none` stands for -1.
pub accept : ParseContext → Option SdpOffer
accept ctx =
    let offer = ctx.offer in
    if not ctx.have_ufrag || not ctx.have_pwd || not ctx.have_fingerprint
    then none
    else if offer.h264_payload_type.0
    then none
    else some (if length offer.setup == 0 then record offer { setup = text "actpass" } else offer)

pub parse_offer : List ℕ → Option SdpOffer
unfolding accept for_each_line no_offer lines
parse_offer sdp = accept (for_each_line (lines sdp) Media.session no_offer)
