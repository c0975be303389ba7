-- ===== src/Badge/Text.antt =====
-- A badge in its header form.
use mathlib.Core.Path.{subst}
use openpcc.Base.{◌≡◌, refl, ok, bind-ok, arith}
use openpcc.Base.Strings.{sort_strings}
use openpcc.Badge.{
  Badge, BadgeProto, Encoding, Str, marshal_proto, unmarshal_proto, encode_strings, serialize,
  deserialize, unmarshal_text,
}
use openpcc.Badge.Strings.{decode-encode_strings}

unmarshal-marshal_badge :
    (b : Badge) (p : BadgeProto)
    → marshal_proto b ≡ ok p
    → unmarshal_proto p
      ≡ ok (record {
        credentials = record { models = sort_strings b.credentials.models };
        signature = b.signature;
      })
unfolding marshal_proto unmarshal_proto
unmarshal-marshal_badge b p wrote =
    let (bytes, h, wrote') = bind-ok (encode_strings b.credentials.models) _ p wrote in
    let read = decode-encode_strings b.credentials.models bytes h in
    let same : record { models = bytes; signature = b.signature } ≡ p = ground (arith, wrote') in
    subst
      (λ q.
        unmarshal_proto q
        ≡ ok (record {
          credentials = record { models = sort_strings b.credentials.models };
          signature = b.signature;
        }))
      same (rw (unmarshal_proto, read) refl)

module _ (enc : Encoding) where
  -- A badge that can be written to a header is read back from it, with the names of its models sorted.
  pub deserialize-serialize :
      (b : Badge) (header : Str)
      → serialize enc b ≡ ok header
      → deserialize enc header
        ≡ ok (record {
          credentials = record { models = sort_strings b.credentials.models };
          signature = b.signature;
        })
  unfolding serialize deserialize unmarshal_text
  deserialize-serialize b header wrote =
      let (p, h, wrote') = bind-ok (marshal_proto b) _ header wrote in
      let text : enc.to_base64 (enc.to_bytes p) ≡ header = ground (arith, wrote') in
      subst
        (λ s.
          deserialize enc s
          ≡ ok (record {
            credentials = record { models = sort_strings b.credentials.models };
            signature = b.signature;
          }))
        text
        (rw (deserialize, enc.of_base64-to_base64 (enc.to_bytes p))
          (rw (unmarshal_text, enc.of_bytes-to_bytes p) (unmarshal-marshal_badge b p h)))
