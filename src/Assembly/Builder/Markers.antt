-- ===== src/Assembly/Builder/Markers.antt =====
-- The limitations of a finished span: those of its parentage and those that were added, each once.
use wardex_sdk.Prelude.{
  ℕ, true, ◌||◌, Option, none, some, List, [], ◌∷◌, ◌++◌, ◌≡◌, refl, sym, ap, ◌∙◌, arith, ◌⊎◌, inl,
  inr,
}
use mathlib.Core.Path.{subst}
use wardex_sdk.Prelude.Dicts.{or_else}
use wardex_sdk.Prelude.Text.{Text}
use wardex_sdk.Prelude.Results.{Result, ok, raise}
use wardex_sdk.Types.{SpanId}
use wardex_sdk.Assembly.Vocabulary.{SpanIntent, TransportLabel}
use wardex_sdk.Spans.Enums.{SpanKind, CaptureSource}
use wardex_sdk.Spans.Attributes.{ConversationContext}
use wardex_sdk.Assembly.Builder.Finish.{
  finish, finish_at, checked, Check, name_of, normalize_manual_error, span_of, ◌>>=◌, check_name,
  check_structure, check_status, check_conversation, check_extra, check_trace,
}
use wardex_sdk.Assembly.Integrity.{Limitation}
use wardex_sdk.Assembly.Parentage.Resolve.{is_in, Parentage}
use wardex_sdk.Assembly.Builder.Integrity.{
  IntegrityBuilder, add_marker, limitation, build, new_integrity,
}
use wardex_sdk.Assembly.Builder.Draft.{
  SpanDraft, VocabularyError, inherit, new_draft, transport_draft, manual_draft,
}
use wardex_sdk.Assembly.Builder.Setters.{
  Setter, write, write_all, set_gen_ai, set_io, set_status, set_error, add_limitation, add_link,
  add_event, add_source, set_extra, merge_correlation,
}
use wardex_sdk.Spans.Span.{InternalSpan, CaptureIntegrity}
use wardex_sdk.Assembly.Builder.Distinct.{
  IsDistinct, add_markers, is_in-add_markers, add_markers-IsDistinct, added_by, added,
}

-- A builder that has a marker was touched.
IsTouched : IntegrityBuilder → Type 0
IsTouched b = (b.touched ≡ true) ⊎ (b.markers ≡ [])

inherit_lem :
    (ks : List Limitation) (b : IntegrityBuilder)
    → IsTouched b
    → ((inherit ks b).markers ≡ add_markers ks b.markers) × IsTouched (inherit ks b)
unfolding inherit limitation add_markers IsTouched
inherit_lem [] b h = (refl, h)
inherit_lem (k ∷ ks) b h = inherit_lem ks (limitation k b) (inl refl)

write_lem :
    (setter : Setter) (d : SpanDraft)
    → IsTouched d.integrity
    → ((write setter d).integrity.markers ≡ add_markers (added_by setter) d.integrity.markers)
      × IsTouched (write setter d).integrity
unfolding write added_by add_markers IsTouched limitation set_gen_ai set_io set_status set_error
    add_limitation add_link add_event add_source set_extra merge_correlation
write_lem setter d h = ground arith

add_markers-append :
    (ks ls ms : List Limitation) → add_markers (ks ++ ls) ms ≡ add_markers ls (add_markers ks ms)
unfolding add_markers
add_markers-append [] ls ms = refl
add_markers-append (k ∷ ks) ls ms = add_markers-append ks ls (add_marker k ms)

write_all_lem :
    (setters : List Setter) (d : SpanDraft)
    → IsTouched d.integrity
    → ((write_all setters d).integrity.markers ≡ add_markers (added setters) d.integrity.markers)
      × IsTouched (write_all setters d).integrity
unfolding write_all added
write_all_lem [] d h = (unfold add_markers in refl, h)
write_all_lem (setter ∷ rest) d h =
    let one = write_lem setter d h in
    let others = write_all_lem rest (write setter d) one.1 in
    (
      others.0
          ∙ ap (add_markers (added rest)) one.0
          ∙ sym (add_markers-append (added_by setter) (added rest) d.integrity.markers),
      others.1,
    )

-- The three ways to open a draft.
pub data Opening : Type 0 where
  vocabulary : Option SpanIntent → Option Text → CaptureSource → ℕ → Option SpanKind → Opening
  transport : TransportLabel → Option Text → CaptureSource → ℕ → SpanKind → Opening
  manual : Text → SpanKind → ℕ → CaptureSource → Opening

unfoldable pub open_draft : SpanId → Parentage → Opening → SpanDraft
unfolding new_draft transport_draft manual_draft
open_draft generated parentage (vocabulary intent subject source start_ns kind) =
    new_draft generated parentage intent subject source start_ns kind
open_draft generated parentage (transport label subject source start_ns kind) =
    transport_draft generated parentage label subject source start_ns kind
open_draft generated parentage (manual name kind start_ns source) =
    manual_draft generated parentage name kind start_ns source

open_draft_lem :
    (generated : SpanId) (parentage : Parentage) (opening : Opening)
    → (open_draft generated parentage opening).integrity
      ≡ inherit parentage.limitations new_integrity
unfolding open_draft new_draft transport_draft manual_draft
open_draft_lem generated parentage opening = ground arith

-- The limitations that a finished span says.
unfoldable pub said : Option CaptureIntegrity → List Limitation
said none = []
said (some block) = block.limitations

said-build : (b : IntegrityBuilder) → IsTouched b → said (build b) ≡ b.markers
unfolding said build IsTouched
said-build b h = ground arith

-- What follows a check that passes, or raises.
then_ok :
    (check : Check) (rest : Result VocabularyError InternalSpan) (span : InternalSpan)
    → (check >>= (λ _. rest)) ≡ ok span
    → rest ≡ ok span
then_ok (ok a) rest span h = h
then_ok (raise e) rest span h = absurd (cc)

ok_path : (a b : InternalSpan) → ◌≡◌ {A = Result VocabularyError InternalSpan} (ok a) (ok b) → a ≡ b
ok_path a b h = cc

normalize_integrity : (d : SpanDraft) → (normalize_manual_error d).integrity ≡ d.integrity
unfolding normalize_manual_error
normalize_integrity d = ground arith

module _ (conversations : ℕ → ConversationContext) where
  checked_span :
      (end_ns : ℕ) (d : SpanDraft) (span : InternalSpan)
      → checked conversations end_ns d ≡ ok span
      → span ≡ span_of (name_of d) end_ns d
  unfolding checked
  checked_span end_ns d span h = sym (
      ok_path _ _ (
        then_ok (check_trace d) _ span (
          then_ok (check_extra d) _ span (
            then_ok (check_conversation conversations d) _ span (
              then_ok (check_status d) _ span (
                then_ok (check_structure d) _ span
                  (then_ok (check_name (name_of d) d) _ span h)))))))

  finish_at_span :
      (end_ns : Option ℕ) (d : SpanDraft) (span : InternalSpan)
      → (finish_at conversations end_ns d).1 ≡ ok span
      → said span.capture_integrity ≡ said (build d.integrity)
  unfolding finish_at span_of
  finish_at_span none d span h = absurd (cc)
  finish_at_span (some end_ns) d span h =
      ap (λ s. said s.capture_integrity) (checked_span end_ns (normalize_manual_error d) span h)
      ∙ ap (λ b. said (build b)) (normalize_integrity d)

  -- However a draft is opened and whatever is written on it, the limitations that its finished span
  -- says are those of its parentage and those that were added, and each stands there once.
  pub finish-limitations :
      (generated : SpanId) (parentage : Parentage) (opening : Opening) (setters : List Setter)
      (end_ns : Option ℕ) (span : InternalSpan)
      → (finish conversations end_ns (write_all setters (open_draft generated parentage opening))).1
        ≡ ok span
      → ((m : Limitation)
          → is_in m (said span.capture_integrity)
            ≡ (is_in m parentage.limitations || is_in m (added setters)))
        × IsDistinct (said span.capture_integrity)
  unfolding finish IsTouched is_in IsDistinct
  finish-limitations generated parentage opening setters end_ns span h =
      let base = open_draft generated parentage opening in
      let d = write_all setters base in
      let begun = inherit_lem parentage.limitations new_integrity (inr refl) in
      let same = open_draft_lem generated parentage opening in
      let written = write_all_lem setters base (subst IsTouched (sym same) begun.1) in
      let told =
        finish_at_span (or_else end_ns d.end_ns) d span h
        ∙ said-build d.integrity written.1
        ∙ written.0
        ∙ ap (λ b. add_markers (added setters) b.markers) same
        ∙ ap (add_markers (added setters)) begun.0 in
      (
        (λ m.
            ap (is_in m) told
            ∙ is_in-add_markers m (added setters) (add_markers parentage.limitations [])
            ∙ ap (λ b. b || is_in m (added setters))
                (is_in-add_markers m parentage.limitations [])),
        subst IsDistinct (sym told) (
            add_markers-IsDistinct (added setters) (add_markers parentage.limitations [])
              (add_markers-IsDistinct parentage.limitations [] tt)),
      )
