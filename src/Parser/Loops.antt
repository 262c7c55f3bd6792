-- ===== src/Parser/Loops.antt =====
-- The two loops over the packets of a message, in internal/parser/telemetry_parser.go.
use ztelem.Prelude.{
  Bytes, List, [], ◌∷◌, ◌++◌, Option, none, some, map, concat, append_assoc, append-nil, ◌≡◌, refl,
  sym, ap, ◌∙◌,
}
use ztelem.Proto.Telemetry.{Telemetry, NotificationGpb}
use ztelem.Parser.Packets.{
  Decoded, decoded, malformed, ParseError, empty_data_gpb, Result, ok, err, skip_packets,
  require_packets, with_packets,
}

module _ {ℓ} {I : Type ℓ} (decode : Bytes → Decoded I) where
  -- The packets that can be decoded, in order.
  abbrev pub readable : List NotificationGpb → List I
  readable [] = []
  readable (gpb ∷ gpbs) = elim (decode gpb.content) [
    | malformed e ↦ readable gpbs
    | decoded info ↦ info ∷ readable gpbs
  ]

  -- Why the first packet that cannot be decoded cannot.
  abbrev pub first_error : List NotificationGpb → Option Bytes
  first_error [] = none
  first_error (gpb ∷ gpbs) = elim (decode gpb.content) [
    | malformed e ↦ some e
    | decoded info ↦ first_error gpbs
  ]

-- The error if there is one.
abbrev pub or_error {κ} :
    {M : Type κ} → (Bytes → ParseError) → List M → Option Bytes → Result (List M)
or_error wrap metrics none = ok metrics
or_error wrap metrics (some e) = err (wrap e)

module _ {ℓ κ} {I : Type ℓ} {M : Type κ} (decode : Bytes → Decoded I) (emit : I → List M) where
  -- What a loop over the decodable packets appends.
  abbrev pub emitted : List NotificationGpb → List M
  emitted gpbs = concat (map emit (readable decode gpbs))

  -- What a loop that stops at a packet it cannot decode answers.
  abbrev pub emitted_or : (Bytes → ParseError) → List NotificationGpb → List M → Result (List M)
  emitted_or wrap gpbs metrics = or_error wrap (metrics ++ emitted gpbs) (first_error decode gpbs)

  -- What a handler answers for a message, which fails without packets.
  abbrev pub tolerated : Telemetry → Result (List M)
  tolerated msg = elim msg.data_gpb [
    | [] ↦ err empty_data_gpb
    | gpb ∷ gpbs ↦ ok (emitted (gpb ∷ gpbs))
  ]

  abbrev pub required : (Bytes → ParseError) → Telemetry → Result (List M)
  required wrap msg = elim msg.data_gpb [
    | [] ↦ err empty_data_gpb
    | gpb ∷ gpbs ↦ emitted_or wrap (gpb ∷ gpbs) []
  ]

  skip_packets_lem :
      (gpbs : List NotificationGpb) (metrics : List M)
      → skip_packets decode emit gpbs metrics ≡ metrics ++ emitted gpbs
  unfolding skip_packets
  skip_packets_lem [] metrics = sym (append-nil metrics)
  skip_packets_lem (gpb ∷ gpbs) metrics =
      elim (decode gpb.content)
        as (λ p.
          elim p [
            | malformed e ↦ skip_packets decode emit gpbs metrics
            | decoded info ↦ skip_packets decode emit gpbs (metrics ++ emit info)
          ]
          ≡ metrics
            ++ concat (
                map emit (elim p [
                  | malformed e ↦ readable decode gpbs
                  | decoded info ↦ info ∷ readable decode gpbs
                ]))) [
                  | malformed e ↦ skip_packets_lem gpbs metrics
                  | decoded info ↦
                      skip_packets_lem gpbs (metrics ++ emit info)
                      ∙ append_assoc metrics (emit info) (emitted gpbs)
                ]

  require_packets_lem :
      (wrap : Bytes → ParseError) (gpbs : List NotificationGpb) (metrics : List M)
      → require_packets wrap decode emit gpbs metrics ≡ emitted_or wrap gpbs metrics
  unfolding require_packets
  require_packets_lem wrap [] metrics = ap ok (sym (append-nil metrics))
  require_packets_lem wrap (gpb ∷ gpbs) metrics =
      elim (decode gpb.content)
        as (λ p.
          elim p [
            | malformed e ↦ err (wrap e)
            | decoded info ↦ require_packets wrap decode emit gpbs (metrics ++ emit info)
          ]
          ≡ or_error wrap
              (metrics
                ++ concat (
                    map emit (elim p [
                      | malformed e ↦ readable decode gpbs
                      | decoded info ↦ info ∷ readable decode gpbs
                    ])))
              (elim p [ malformed e ↦ some e | decoded info ↦ first_error decode gpbs ])) [
                | malformed e ↦ refl
                | decoded info ↦
                    require_packets_lem wrap gpbs (metrics ++ emit info)
                    ∙ ap (λ all. or_error wrap all (first_error decode gpbs))
                        (append_assoc metrics (emit info) (emitted gpbs))
              ]

  pub skip-tolerated :
      (msg : Telemetry)
      → with_packets msg (λ gpbs. ok (skip_packets decode emit gpbs [])) ≡ tolerated msg
  unfolding with_packets
  skip-tolerated msg =
      elim msg.data_gpb
        as (λ g.
          elim g [
            | [] ↦ err empty_data_gpb
            | gpb ∷ gpbs ↦ ok (skip_packets decode emit (gpb ∷ gpbs) [])
          ]
          ≡ elim g [ [] ↦ err empty_data_gpb | gpb ∷ gpbs ↦ ok (emitted (gpb ∷ gpbs)) ]) [
            | [] ↦ refl
            | gpb ∷ gpbs ↦ ap ok (skip_packets_lem (gpb ∷ gpbs) [])
          ]

  pub require-required :
      (wrap : Bytes → ParseError) (msg : Telemetry)
      → with_packets msg (λ gpbs. require_packets wrap decode emit gpbs []) ≡ required wrap msg
  unfolding with_packets
  require-required wrap msg =
      elim msg.data_gpb
        as (λ g.
          elim g [
            | [] ↦ err empty_data_gpb
            | gpb ∷ gpbs ↦ require_packets wrap decode emit (gpb ∷ gpbs) []
          ]
          ≡ elim g [ [] ↦ err empty_data_gpb | gpb ∷ gpbs ↦ emitted_or wrap (gpb ∷ gpbs) [] ]) [
            | [] ↦ refl
            | gpb ∷ gpbs ↦ require_packets_lem wrap (gpb ∷ gpbs) []
          ]
