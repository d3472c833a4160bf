-- ===== src/Client/Conservation.antt =====
-- No item leaves the client unnoticed: it is held, recorded as lost, or was taken by the transport.
use mathlib.Core.List.{reverse, reverse-cons}
use wardex_sdk.Prelude.{
  ℕ, ◌+◌, ◌≡◌, ◌∙◌, refl, ap, inl, inr, Bool, true, false, not, ◌&&◌, ◌||◌, Option, none, some,
  List, [], ◌∷◌, length, length-append, arith, leb, Bool-cases, if◌then◌else◌,
}
use wardex_sdk.Assembly.DropReasons.{DropReason, DropUnit}
use wardex_sdk.Assembly.Ledger.Wire.{is_empty}
use wardex_sdk.Client.State.{Client, Span, recorded, tell, report_lost, evict_oldest}
use wardex_sdk.Client.Capture.{
  is_full_for, make_room, append_span, admit, admit_all, capture_span, capture_all, push_snapshot,
  capture_snapshot,
}
use wardex_sdk.Client.Drain.{
  return_span, return_spans, return_snapshot, return_snapshots, return_to_buffer, take_back,
}
use wardex_sdk.Client.Measures.{losses, known}

-- Both branches of a test know as much.
pub known_if :
    (b : Bool) (c d : Client) {n : ℕ} → known c ≡ n → known d ≡ n → known (if b then c else d) ≡ n
known_if true c d p q = p
known_if false c d p q = q

pub known-report_lost : (n : ℕ) (c : Client) → known (report_lost n c) ≡ known c + n
unfolding known report_lost losses
known-report_lost n c = ground arith

known-tell_one :
    (r : DropReason) (u : Option DropUnit) (c : Client)
    → known (tell (recorded r u 1) c) ≡ known c + 1
unfolding known tell losses
known-tell_one r u c = omega arith

known-evict_oldest :
    (ss : List Span) (c : Client) → c.spans ≡ ss → known (evict_oldest ss c) ≡ known c
unfolding known evict_oldest losses
known-evict_oldest [] c e = refl
known-evict_oldest (s ∷ rest) c e = rw e (omega arith)

spans-evict_oldest :
    (s : Span) (rest : List Span) (c : Client) → (evict_oldest (s ∷ rest) c).spans ≡ rest
unfolding evict_oldest
spans-evict_oldest s rest c = refl

known-make_room :
    (size : ℕ) (ss : List Span) (c : Client) → c.spans ≡ ss → known (make_room size ss c) ≡ known c
unfolding make_room
known-make_room size [] c e = refl
known-make_room size (s ∷ rest) c e = elim (Bool-cases (is_full_for size c)) [
  | inl full ↦ rw full (
      known-make_room size rest (evict_oldest (s ∷ rest) c) (spans-evict_oldest s rest c)
      ∙ known-evict_oldest (s ∷ rest) c e)
  | inr room ↦ rw room
]

known-append_span : (s : Span) (c : Client) → known (append_span s c) ≡ known c + 1
unfolding known append_span
known-append_span s c = omega (arith, length-append c.spans (s ∷ []))

known-admit : (s : Span) (c : Client) → known (admit s c) ≡ known c + 1
unfolding admit
known-admit s c =
    known_if c.finalize_drained (report_lost 1 c) (append_span s (make_room s.size c.spans c))
      (known-report_lost 1 c)
      (omega (
        arith,
        known-append_span s (make_room s.size c.spans c),
        known-make_room s.size c.spans c refl,
      ))

pub known-admit_all : (ss : List Span) (c : Client) → known (admit_all ss c) ≡ known c + length ss
unfolding admit_all
known-admit_all [] c = omega arith
known-admit_all (s ∷ ss) c = omega (arith, known-admit_all ss (admit s c), known-admit s c)

-- A captured span is one more item held or recorded as lost, on every branch: after close, after
-- the last drain, into a buffer with room and into a full one, whatever that evicts.
pub known-capture_span : (s : Span) (c : Client) → known (capture_span s c) ≡ known c + 1
unfolding capture_span
known-capture_span s c =
    known_if c.closed (tell (recorded DropReason.after_close none 1) c) (admit s c)
      (known-tell_one DropReason.after_close none c) (known-admit s c)

pub known-capture_all :
    (ss : List Span) (c : Client) → known (capture_all ss c) ≡ known c + length ss
unfolding capture_all
known-capture_all [] c = omega arith
known-capture_all (s ∷ ss) c =
    omega (arith, known-capture_all ss (capture_span s c), known-capture_span s c)

known-push_snapshot :
    (x : ℕ) (xs : List ℕ) (c : Client)
    → c.snapshots ≡ xs
    → known (push_snapshot x xs c) ≡ known c + 1
unfolding known push_snapshot losses tell
known-push_snapshot x [] c e = rw e (omega arith)
known-push_snapshot x (y ∷ ys) c e =
    rw e (ground (arith, length-append ys (x ∷ []), length-append (y ∷ ys) (x ∷ [])))

-- So is a captured snapshot.
pub known-capture_snapshot : (x : ℕ) (c : Client) → known (capture_snapshot x c) ≡ known c + 1
unfolding capture_snapshot
known-capture_snapshot x c =
    known_if c.closed (tell (recorded DropReason.after_close (some DropUnit.snapshot) 1) c)
      (push_snapshot x c.snapshots c)
      (known-tell_one DropReason.after_close (some DropUnit.snapshot) c)
      (known-push_snapshot x c.snapshots c refl)

known-return_span : (s : Span) (c : Client) → known (return_span s c) ≡ known c + 1
unfolding known return_span losses tell
known-return_span s c = elim (Bool-cases (not (is_empty c.spans) && is_full_for s.size c)) [
  | inl full ↦ rw full (omega arith)
  | inr room ↦ rw room (omega arith)
]

known-return_spans : (ss : List Span) (c : Client) → known (return_spans ss c) ≡ known c + length ss
unfolding return_spans
known-return_spans [] c = omega arith
known-return_spans (s ∷ ss) c =
    omega (arith, known-return_spans ss (return_span s c), known-return_span s c)

known-return_snapshot : (x : ℕ) (c : Client) → known (return_snapshot x c) ≡ known c + 1
unfolding known return_snapshot losses tell
known-return_snapshot x c =
    elim (Bool-cases (not (is_empty c.snapshots) && leb c.max_buffer_spans (length c.snapshots))) [
      | inl full ↦ rw full (omega arith)
      | inr room ↦ rw room (omega arith)
    ]

known-return_snapshots :
    (xs : List ℕ) (c : Client) → known (return_snapshots xs c) ≡ known c + length xs
unfolding return_snapshots
known-return_snapshots [] c = omega arith
known-return_snapshots (x ∷ xs) c =
    omega (arith, known-return_snapshots xs (return_snapshot x c), known-return_snapshot x c)

pub length-reverse {ℓ} : {A : Type ℓ} (xs : List A) → length (reverse xs) ≡ length xs
length-reverse [] = refl
length-reverse (x ∷ xs) =
    omega
      (arith, ap length (reverse-cons x xs), length-append (reverse xs) (x ∷ []), length-reverse xs)

pub known-take_back :
    (final : Bool) (ss : List Span) (xs : List ℕ) (c : Client)
    → known (take_back final ss xs c) ≡ known c + length ss + length xs
unfolding take_back return_to_buffer
known-take_back final ss xs c =
    known_if (final || c.closed) (report_lost (length ss + length xs) c) (return_to_buffer ss xs c)
      (omega (arith, known-report_lost (length ss + length xs) c))
      (omega (
        arith,
        known-return_spans (reverse ss) c,
        known-return_snapshots (reverse xs) (return_spans (reverse ss) c),
        length-reverse ss,
        length-reverse xs,
      ))
