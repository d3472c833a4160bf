-- ===== src/Client/Bounds.antt =====
-- The buffer's bounds and its byte count, and the order of eviction.
use wardex_sdk.Prelude.{
  ℕ, suc, ◌+◌, ◌≤◌, ◌<◌, max, ◌≡◌, ◌⊎◌, refl, ap, inl, inr, Bool, true, false, none, some, List, [],
  ◌∷◌, length, length-append, drop, arith, nat_eq, leb, Bool-cases, if◌then◌else◌,
}
use wardex_sdk.Assembly.DropReasons.{DropReason, DropUnit}
use wardex_sdk.Client.State.{Client, Span, recorded, tell, report_lost, evict_oldest}
use wardex_sdk.Client.Capture.{
  is_full_for, make_room, append_span, admit, capture_span, capture_all, push_snapshot,
  capture_snapshot,
}
use wardex_sdk.Client.Measures.{total, total-append}

-- What a buffer keeps to: its byte count is its spans' sizes, it has no more spans and no more
-- snapshots than its bound, and more bytes than the bound only for a single span. A bound of 0 acts
-- as 1, since the newest item is always kept.
abbrev pub Fits : List Span → ℕ → List ℕ → ℕ → ℕ → Type 0
Fits spans bytes snapshots max_spans max_bytes =
    (bytes ≡ total spans)
    × (length spans ≤ max 1 max_spans)
    × ((length spans ≤ 1) ⊎ (bytes ≤ max_bytes))
    × (length snapshots ≤ max 1 max_spans)

abbrev pub IsBuffer : Client → Type 0
IsBuffer c = Fits c.spans c.bytes c.snapshots c.max_buffer_spans c.max_buffer_bytes

-- A new span fits: none is held, or the buffer is not full for it.
Room : ℕ → Client → Type 0
Room size c =
    (length c.spans ≡ 0)
    ⊎ ((length c.spans < c.max_buffer_spans) × (c.bytes + size ≤ c.max_buffer_bytes))

pub fits-then :
    (size : ℕ) (c : Client)
    → is_full_for size c ≡ false
    → (length c.spans < c.max_buffer_spans) × (c.bytes + size ≤ c.max_buffer_bytes)
unfolding is_full_for
fits-then size c e = (ground arith, ground arith)

make_room-Room :
    (size : ℕ) (ss : List Span) (c : Client) → c.spans ≡ ss → Room size (make_room size ss c)
unfolding make_room Room evict_oldest tell
make_room-Room size [] c e = inl (ap length e)
make_room-Room size (s ∷ rest) c e = elim (Bool-cases (is_full_for size c)) [
  | inl full ↦ rw full (make_room-Room size rest (evict_oldest (s ∷ rest) c) refl)
  | inr room ↦ rw room (inr (fits-then size c room))
]

spans-evict : (s : Span) (rest : List Span) (c : Client) → (evict_oldest (s ∷ rest) c).spans ≡ rest
unfolding evict_oldest tell
spans-evict s rest c = refl

bytes-evict :
    (s : Span) (rest : List Span) (c : Client)
    → c.spans ≡ s ∷ rest
    → c.bytes ≡ total c.spans
    → (evict_oldest (s ∷ rest) c).bytes ≡ total (evict_oldest (s ∷ rest) c).spans
unfolding evict_oldest tell total
bytes-evict s rest c e same = omega (arith, same, ap total e)

make_room-bytes :
    (size : ℕ) (ss : List Span) (c : Client)
    → c.spans ≡ ss
    → c.bytes ≡ total c.spans
    → (make_room size ss c).bytes ≡ total (make_room size ss c).spans
unfolding make_room
make_room-bytes size [] c e same = same
make_room-bytes size (s ∷ rest) c e same = elim (Bool-cases (is_full_for size c)) [
  | inl full ↦ rw full (
      make_room-bytes size rest (evict_oldest (s ∷ rest) c) (spans-evict s rest c)
        (bytes-evict s rest c e same))
  | inr room ↦ rw room same
]

-- Making room leaves the bounds and the snapshots as they are.
pub make_room-keeps :
    (size : ℕ) (ss : List Span) (c : Client)
    → ((make_room size ss c).max_buffer_spans ≡ c.max_buffer_spans)
      × ((make_room size ss c).max_buffer_bytes ≡ c.max_buffer_bytes)
      × ((make_room size ss c).snapshots ≡ c.snapshots)
unfolding make_room evict_oldest tell
make_room-keeps size [] c = (refl, refl, refl)
make_room-keeps size (s ∷ rest) c = elim (Bool-cases (is_full_for size c)) [
  | inl full ↦ rw full (make_room-keeps size rest (evict_oldest (s ∷ rest) c))
  | inr room ↦ rw room (refl, refl, refl)
]

-- The spans that go are the oldest.
pub make_room-drop :
    (size : ℕ) (ss : List Span) (c : Client)
    → c.spans ≡ ss
    → (n : ℕ) × ((make_room size ss c).spans ≡ drop n ss)
unfolding make_room
make_room-drop size [] c e = (0, e)
make_room-drop size (s ∷ rest) c e = elim (Bool-cases (is_full_for size c)) [
  | inl full ↦
      let later = make_room-drop size rest (evict_oldest (s ∷ rest) c) (spans-evict s rest c) in
      (suc later.0, rw full later.1)
  | inr room ↦ (0, rw room e)
]

append_span-Fits :
    (s : Span) (c : Client)
    → Room s.size c
    → c.bytes ≡ total c.spans
    → length c.snapshots ≤ max 1 c.max_buffer_spans
    → IsBuffer (append_span s c)
unfolding append_span Room total
append_span-Fits s c room same few =
    let joined = length-append c.spans (s ∷ []) in
    (
      omega (arith, same, total-append c.spans (s ∷ [])),
      elim room [ inl e ↦ omega (arith, e, joined) | inr h ↦ omega (arith, h.0, joined) ],
      elim room [ inl e ↦ inl (omega (arith, e, joined)) | inr h ↦ inr (omega (arith, h.1)) ],
      few,
    )

pub IsBuffer-report_lost : (n : ℕ) (c : Client) → IsBuffer c → IsBuffer (report_lost n c)
unfolding report_lost tell
IsBuffer-report_lost n c h = elim (Bool-cases (nat_eq n 0)) [
  | inl none_lost ↦ rw none_lost h
  | inr some_lost ↦ rw some_lost h
]

-- Both branches of a test keep to the bounds.
pub IsBuffer-if :
    (b : Bool) (c d : Client) → IsBuffer c → IsBuffer d → IsBuffer (if b then c else d)
IsBuffer-if true c d p q = p
IsBuffer-if false c d p q = q

pub admit-IsBuffer : (s : Span) (c : Client) → IsBuffer c → IsBuffer (admit s c)
unfolding admit
admit-IsBuffer s c h =
    let d = make_room s.size c.spans c in
    let kept = make_room-keeps s.size c.spans c in
    IsBuffer-if c.finalize_drained (report_lost 1 c) (append_span s d) (IsBuffer-report_lost 1 c h)
      (append_span-Fits s d (make_room-Room s.size c.spans c refl)
        (make_room-bytes s.size c.spans c refl h.0) (omega (arith, h.3, kept.0, ap length kept.2)))

pub capture_span-IsBuffer : (s : Span) (c : Client) → IsBuffer c → IsBuffer (capture_span s c)
unfolding capture_span tell
capture_span-IsBuffer s c h =
    IsBuffer-if c.closed (tell (recorded DropReason.after_close none 1) c) (admit s c) h
      (admit-IsBuffer s c h)

pub capture_all-IsBuffer : (ss : List Span) (c : Client) → IsBuffer c → IsBuffer (capture_all ss c)
unfolding capture_all
capture_all-IsBuffer [] c h = h
capture_all-IsBuffer (s ∷ ss) c h =
    capture_all-IsBuffer ss (capture_span s c) (capture_span-IsBuffer s c h)

push_snapshot-IsBuffer :
    (x : ℕ) (xs : List ℕ) (c : Client)
    → c.snapshots ≡ xs
    → IsBuffer c
    → IsBuffer (push_snapshot x xs c)
unfolding push_snapshot tell
push_snapshot-IsBuffer x [] c e h = (h.0, h.1, h.2, omega arith)
push_snapshot-IsBuffer x (y ∷ ys) c e h =
    elim (Bool-cases (leb c.max_buffer_spans (length (y ∷ ys)))) [
      | inl full ↦
          rw full (h.0, h.1, h.2, omega (arith, length-append ys (x ∷ []), h.3, ap length e))
      | inr room ↦
          rw room (h.0, h.1, h.2, ground (arith, length-append ys (x ∷ []), h.3, ap length e))
    ]

pub capture_snapshot-IsBuffer : (x : ℕ) (c : Client) → IsBuffer c → IsBuffer (capture_snapshot x c)
unfolding capture_snapshot tell
capture_snapshot-IsBuffer x c h =
    IsBuffer-if c.closed (tell (recorded DropReason.after_close (some DropUnit.snapshot) 1) c)
      (push_snapshot x c.snapshots c) h (push_snapshot-IsBuffer x c.snapshots c refl h)

-- A capture keeps to the bounds, of a span and of a snapshot, into an open client and a closed one.
pub captures-IsBuffer :
    (s : Span) (x : ℕ) (c : Client)
    → IsBuffer c
    → IsBuffer (capture_span s c) × IsBuffer (capture_snapshot x c)
captures-IsBuffer s x c h = (capture_span-IsBuffer s c h, capture_snapshot-IsBuffer x c h)
