-- ===== src/Client/Capture.antt =====
-- What puts spans and snapshots into the buffer.
use wardex_sdk.Prelude.{
  ℕ, ◌+◌, Bool, ◌||◌, none, some, List, [], ◌∷◌, ◌++◌, length, ltb, leb, if◌then◌else◌,
}
use wardex_sdk.Assembly.DropReasons.{DropReason, DropUnit}
use wardex_sdk.Client.State.{Client, Span, recorded, tell, report_lost, evict_oldest}

-- `len(buf.spans) >= max_buffer_spans or buf.bytes + size > max_buffer_bytes`.
unfoldable pub is_full_for : ℕ → Client → Bool
is_full_for size c =
    leb c.max_buffer_spans (length c.spans) || ltb c.max_buffer_bytes (c.bytes + size)

-- The loop of `_admit`: the oldest spans go until the new one fits, or none is left. The list is
-- the buffer's.
unfoldable pub make_room : ℕ → List Span → Client → Client
unfolding evict_oldest is_full_for
make_room size [] c = c
make_room size (s ∷ rest) c =
    let next = make_room size rest (evict_oldest (s ∷ rest) c) in
    if is_full_for size c then next else c

-- `_SpanBuffer.append`.
unfoldable pub append_span : Span → Client → Client
append_span s c = record c { spans = c.spans ++ (s ∷ []); bytes = c.bytes + s.size }

-- `_admit`, for a span that has its scope's stamp.
unfoldable pub admit : Span → Client → Client
unfolding make_room append_span report_lost
admit s c =
    if c.finalize_drained then report_lost 1 c else append_span s (make_room s.size c.spans c)

unfoldable pub capture_span : Span → Client → Client
unfolding admit tell
capture_span s c = if c.closed then tell (recorded DropReason.after_close none 1) c else admit s c

unfoldable pub capture_all : List Span → Client → Client
unfolding capture_span
capture_all [] c = c
capture_all (s ∷ ss) c = capture_all ss (capture_span s c)

-- What the finalize queue hands over, one span after the other.
unfoldable pub admit_all : List Span → Client → Client
unfolding admit
admit_all [] c = c
admit_all (s ∷ ss) c = admit_all ss (admit s c)

-- The snapshot bound: the oldest goes where the buffer is full.
unfoldable pub push_snapshot : ℕ → List ℕ → Client → Client
unfolding tell
push_snapshot x [] c = record c { snapshots = x ∷ [] }
push_snapshot x (y ∷ ys) c =
    if leb c.max_buffer_spans (length (y ∷ ys))
    then tell (recorded DropReason.queue_overflow (some DropUnit.snapshot) 1)
        (record c { snapshots = ys ++ (x ∷ []); dropped = c.dropped + 1 })
    else record c { snapshots = y ∷ ys ++ (x ∷ []) }

unfoldable pub capture_snapshot : ℕ → Client → Client
unfolding push_snapshot tell
capture_snapshot x c =
    if c.closed
    then tell (recorded DropReason.after_close (some DropUnit.snapshot) 1) c
    else push_snapshot x c.snapshots c
