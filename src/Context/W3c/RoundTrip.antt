-- ===== src/Context/W3c/RoundTrip.antt =====
-- What `format_traceparent` writes, `parse_traceparent` reads back.
use mathlib.Core.Path.{subst}
use mathlib.Core.List.{append-nil}
use wardex_sdk.Prelude.{
  ℕ, ◌/◌, ◌%◌, ◌≡◌, refl, false, some, List, [], ◌∷◌, ◌++◌, length, All, All-append, arith,
}
use wardex_sdk.Prelude.Text.{Text, is_space, strip_full}
use wardex_sdk.Types.{TraceId, SpanId, SpanContext, to_hex}
use wardex_sdk.Context.W3c.{
  field_re, hex_run, literal_dash, dot_star_end, read_fields, parse_traceparent, format_traceparent,
  from_hex, int16, all_zero, is_hex, dash,
}
use wardex_sdk.Context.W3c.Hex.{
  AreBytes, AreHex, to_hex-AreHex, length-to_hex, from_hex-to_hex, hex_run-append, is_hex-not-space,
  hex_value-digit,
}

-- The identifiers that the W3C grammar allows: of the right size, and not all zero.
pub record IsTraceId (t : TraceId) : Type 0 where
  pub size : length t.value ≡ 16
  pub bytes : AreBytes t.value
  pub nonzero : all_zero t.value ≡ false

pub record IsSpanId (s : SpanId) : Type 0 where
  pub size : length s.value ≡ 8
  pub bytes : AreBytes s.value
  pub nonzero : all_zero s.value ≡ false

abbrev SolidText : Text → Type 0
SolidText = All (λ c. is_space c ≡ false)

AreHex-solid : (s : Text) → AreHex s → SolidText s
AreHex-solid [] h = tt
AreHex-solid (c ∷ s) h = (is_hex-not-space c h.0, AreHex-solid s h.1)

abbrev flag_text : ℕ → Text
flag_text f = to_hex ((f % 256) ∷ [])

flag_bytes : (f : ℕ) → AreBytes ((f % 256) ∷ [])
flag_bytes f = omega arith

format-solid :
    (ctx : SpanContext)
    → IsTraceId ctx.trace_id
    → IsSpanId ctx.span_id
    → SolidText (format_traceparent ctx)
unfolding format_traceparent is_space
format-solid ctx t s =
    let hex = λ (bs : List ℕ) (h : AreBytes bs). AreHex-solid (to_hex bs) (to_hex-AreHex bs h) in
    (
      refl,
      (
        refl,
        (
          refl,
          All-append _ (to_hex ctx.trace_id.value) _ (hex ctx.trace_id.value t.bytes) (
            refl,
            All-append _ (to_hex ctx.span_id.value) _ (hex ctx.span_id.value s.bytes)
                (refl, hex ((ctx.trace_flags % 256) ∷ []) (flag_bytes ctx.trace_flags)),
          ),
        ),
      ),
    )

-- The groups of a well-formed header.
field_re_lem :
    (t s f : Text)
    → length t ≡ 32
    → AreHex t
    → length s ≡ 16
    → AreHex s
    → length f ≡ 2
    → AreHex f
    → field_re (b'0' ∷ b'0' ∷ dash ∷ (t ++ (dash ∷ (s ++ (dash ∷ f)))))
      ≡ some
          (record { version = b'0' ∷ b'0' ∷ []; trace_id = t; span_id = s; flags = f; rest = [] })
unfolding field_re literal_dash dot_star_end
field_re_lem t s f lt ht ls hs lf hf =
    let last : hex_run 2 f ≡ some (f, []) =
      subst (λ g. hex_run 2 g ≡ some (f, [])) (append-nil f) (hex_run-append 2 f [] lf hf) in
    rw (
      hex_run-append 2 (b'0' ∷ b'0' ∷ []) (dash ∷ (t ++ (dash ∷ (s ++ (dash ∷ f))))) refl zeros,
      hex_run-append 32 t (dash ∷ (s ++ (dash ∷ f))) lt ht,
      hex_run-append 16 s (dash ∷ f) ls hs,
      last,
    )
  where
    zeros : AreHex (b'0' ∷ b'0' ∷ [])
    zeros = unfold is_hex in (refl, (refl, tt))

-- Version 00 with identifiers that are not zero is accepted.
read_fields_lem :
    (t s f : Text)
    → all_zero (from_hex t) ≡ false
    → all_zero (from_hex s) ≡ false
    → read_fields
        (record { version = b'0' ∷ b'0' ∷ []; trace_id = t; span_id = s; flags = f; rest = [] })
      ≡ some (record { value = from_hex t }, record { value = from_hex s }, int16 0 f)
unfolding read_fields
read_fields_lem t s f ht hs = rw (ht, hs)

int16-flags : (f : ℕ) → int16 0 (to_hex ((f % 256) ∷ [])) ≡ f % 256
unfolding int16 to_hex
int16-flags f =
    rw
      (
        hex_value-digit ((f % 256) / 16) (omega arith),
        hex_value-digit ((f % 256) % 16) (omega arith),
      )
      (omega arith)

-- A context with W3C identifiers is read back from the header written for it, with the low eight
-- bits of its flags, whatever its flags are.
pub parse_traceparent-format_traceparent :
    (ctx : SpanContext)
    → IsTraceId ctx.trace_id
    → IsSpanId ctx.span_id
    → parse_traceparent (format_traceparent ctx)
      ≡ some (ctx.trace_id, ctx.span_id, ctx.trace_flags % 256)
unfolding parse_traceparent
parse_traceparent-format_traceparent ctx t s = rw (
  strip_full (format_traceparent ctx) (format-solid ctx t s),
  fields,
  read_fields_lem (to_hex ctx.trace_id.value) (to_hex ctx.span_id.value) _
      (rw (from_hex-to_hex _ t.bytes) t.nonzero) (rw (from_hex-to_hex _ s.bytes) s.nonzero),
  from_hex-to_hex ctx.trace_id.value t.bytes,
  from_hex-to_hex ctx.span_id.value s.bytes,
  int16-flags ctx.trace_flags,
)
  where
    fields :
        field_re (format_traceparent ctx)
        ≡ some (record {
          version = b'0' ∷ b'0' ∷ [];
          trace_id = to_hex ctx.trace_id.value;
          span_id = to_hex ctx.span_id.value;
          flags = to_hex ((ctx.trace_flags % 256) ∷ []);
          rest = [];
        })
    fields =
        unfold format_traceparent in
        field_re_lem (to_hex ctx.trace_id.value) (to_hex ctx.span_id.value)
          (to_hex ((ctx.trace_flags % 256) ∷ []))
          (omega (arith, length-to_hex ctx.trace_id.value, t.size))
          (to_hex-AreHex ctx.trace_id.value t.bytes)
          (omega (arith, length-to_hex ctx.span_id.value, s.size))
          (to_hex-AreHex ctx.span_id.value s.bytes) (length-to_hex ((ctx.trace_flags % 256) ∷ []))
          (to_hex-AreHex ((ctx.trace_flags % 256) ∷ []) (flag_bytes ctx.trace_flags))
