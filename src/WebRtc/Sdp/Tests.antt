-- ===== src/WebRtc/Sdp/Tests.antt =====
-- A small offer for src/webrtc/sdp.c.
use ideal_broccoli.Base.{ℕ, ◌≡◌, ◌<◌, refl, false, some, List, [], ◌∷◌, ◌++◌, length, text}
use ideal_broccoli.Base.Strtol.{atoi, strtol, digits}
use ideal_broccoli.WebRtc.Sdp.{SdpOffer, contains, strip, c_string, parse_visit, parse_offer}
use ideal_broccoli.WebRtc.Sdp.Fields.{Clean, parse_offer-Clean}

-- The line feed behind each line, once with a carriage return.
abbrev sdp : List ℕ
sdp =
    text "v=0"
    ++ (13 ∷ 10 ∷ [])
    ++ text "a=ice-ufrag:u1"
    ++ (10 ∷ [])
    ++ text "a=ice-pwd:secret"
    ++ (10 ∷ [])
    ++ text "a=fingerprint:sha-256 AB"
    ++ (10 ∷ [])
    ++ text "m=video 9 X 96"
    ++ (10 ∷ [])
    ++ text "a=mid:0"
    ++ (10 ∷ [])
    ++ text "a=rtpmap:96 H264/90000"

abbrev offer : SdpOffer
offer = record {
  ice_ufrag = text "u1";
  ice_pwd = text "secret";
  fingerprint = text "sha-256 AB";
  setup = text "actpass";
  video_mid = text "0";
  audio_mid = [];
  has_audio = false;
  h264_payload_type = (false, 96);
  h264_packetization_mode = 1;
}

accepted : parse_offer sdp ≡ some offer
unfolding parse_offer parse_visit strip c_string contains atoi strtol digits
accepted = refl

parse_offer-Clean_example :
    Clean offer × (offer.h264_payload_type.0 ≡ false) × (0 < length offer.setup)
parse_offer-Clean_example = parse_offer-Clean sdp offer accepted
