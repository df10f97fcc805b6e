-- ===== src/Examples/Decoding.antt =====
-- The decoding of contexts, messages and quotes, at concrete bytes.
use lcp_go.Common.{◌≡◌, ◌↔◌, refl, Bytes, none, some, [], ◌∷◌, ◌++◌, replicate, arith}
use lcp_go.Common.Int.{pos, ◌≤ℤ◌, ◌+ℤ◌}
use lcp_go.Result.{ok, panic}
use lcp_go.GoTime.{unix_time}
use lcp_go.Types.{UpdateClientMessage, TrustAnchors}
use lcp_go.Packages.{Quote}
use lcp_go.Message.{
  TrustingPeriodValidationContext, HeaderedProxyMessage, ProxyMessage, update_state, empty,
  lcp_message_version,
}
use lcp_go.Message.ValidationContext.{
  decode_trusting_period_validation_context, validate_trusting_period, time_to_big_int,
}
use lcp_go.Message.TrustingPeriod.{first_half, second_half, decode-validate_trusting_period}
use lcp_go.Message.Decode.{get_proxy_message, eth_abi_decode_headered_proxy_message}
use lcp_go.Message.Version.{Carries, get_proxy_message_sound}
use lcp_go.Ias.{get_ra_root_cert, set_ra_root_cert, verify_report, get_ek_and_operator}
use lcp_go.Ias.Anchors.{verify_report_sound, get_ek_and_operator-layout, set_ra_root_cert_once}
use lcp_go.Examples.Sample.{packages, ias, abi, address, now}
use lcp_go.Examples.Laws.{eth_laws}
use lcp_go.Examples.Executable.{executable}

-- 1000 nanoseconds and 900 nanoseconds
abbrev timestamps : Bytes
timestamps = replicate 14 0 ++ (3 ∷ 232 ∷ (replicate 14 0 ++ (3 ∷ 132 ∷ [])))

-- a period of 256 and a drift of 1
abbrev params : Bytes
params = replicate 14 0 ++ (1 ∷ 0 ∷ (replicate 15 0 ++ (1 ∷ [])))

decode-validate_trusting_period_example :
    (c : TrustingPeriodValidationContext) × (decode_trusting_period_validation_context timestamps
        params
      ≡ ok c)
    × ((validate_trusting_period c (unix_time (pos 0) 1100) ≡ ok tt) ↔ (
        (time_to_big_int (unix_time (pos 0) 1100)
          ≤ℤ pos (second_half timestamps) +ℤ pos (first_half params))
        × (pos (first_half timestamps)
            ≤ℤ time_to_big_int (unix_time (pos 0) 1100) +ℤ pos (second_half params))))
unfolding executable
decode-validate_trusting_period_example =
    decode-validate_trusting_period timestamps params (unix_time (pos 0) 1100) refl refl
      (omega arith) (omega arith)

abbrev header : UpdateClientMessage
header = record { proxy_message = 1 ∷ 1 ∷ 0 ∷ 0 ∷ 7 ∷ 9 ∷ 12 ∷ []; signatures = [] }

abbrev decoded : ProxyMessage
decoded = update_state (record {
  prev_height = none;
  prev_state_id = some (0 ∷ []);
  post_height = record { revision_number = 0; revision_height = 7 };
  post_state_id = 9 ∷ [];
  timestamp = 12;
  context = empty;
  emitted_states =
      record {
        height = record { revision_number = 0; revision_height = 7 };
        state = record { type_url = []; value = [] };
      }
      ∷ [];
})

header_decoded : get_proxy_message abi header ≡ ok decoded
unfolding executable
header_decoded = refl

get_proxy_message_sound_example :
    (m : HeaderedProxyMessage) × (eth_abi_decode_headered_proxy_message abi header.proxy_message
      ≡ ok m)
    × (m.version ≡ lcp_message_version)
    × Carries abi m decoded
get_proxy_message_sound_example = get_proxy_message_sound abi header decoded header_decoded

report_ok : verify_report packages [] [] (1 ∷ []) now.block_time ≡ ok tt
unfolding executable
report_ok = refl

verify_report_sound_example :
    (root cert leaf : Bytes) × (packages.anchors.root_cert ≡ some root)
    × (ias.parse_certificate (1 ∷ []) ≡ ok cert)
    × (ias.verify_chains cert packages.anchors.roots now.block_time ≡ ok ((leaf ∷ root ∷ []) ∷ []))
    × (ias.check_signature cert [] [] ≡ ok tt)
verify_report_sound_example = verify_report_sound packages [] [] (1 ∷ []) now.block_time report_ok

abbrev quote : Quote
quote = record { mrenclave = []; report_data = 1 ∷ (address 5 ++ (address 3 ++ replicate 23 0)) }

get_ek_and_operator-layout_example : get_ek_and_operator packages quote ≡ ok (address 5, address 3)
get_ek_and_operator-layout_example =
    get_ek_and_operator-layout packages eth_laws quote (address 5) (address 3) (replicate 23 0) refl
      refl refl refl

abbrev unset : TrustAnchors
unset = record { root_cert = none; roots = [] }

abbrev set_once : TrustAnchors
set_once = record { root_cert = some (1 ∷ []); roots = (1 ∷ []) ∷ [] }

set_once_done : set_ra_root_cert unset (1 ∷ []) ≡ ok set_once
unfolding set_ra_root_cert
set_once_done = refl

set_ra_root_cert_once_example :
    (get_ra_root_cert set_once ≡ ok (1 ∷ []))
    × (set_once.roots ≡ (1 ∷ []) ∷ [])
    × (set_ra_root_cert set_once (2 ∷ []) ≡ panic)
set_ra_root_cert_once_example = set_ra_root_cert_once unset set_once (1 ∷ []) (2 ∷ []) set_once_done
