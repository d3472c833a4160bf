-- ===== src/Client/Closed.antt =====
-- What a close leaves: nothing is buffered, and nothing happens at the next one.
use wardex_sdk.Prelude.{
  ℕ, ◌+◌, ◌≡◌, refl, Bool, true, false, ◌&&◌, none, List, [], ◌∷◌, length, nat_eq, if◌then◌else◌,
}
use wardex_sdk.Assembly.DropReasons.{DropReason}
use wardex_sdk.Assembly.Ledger.Wire.{is_empty}
use wardex_sdk.Client.State.{Client, Span, recorded, attached, tell, report_lost, evict_oldest}
use wardex_sdk.Client.Capture.{
  is_full_for, make_room, append_span, admit, admit_all, capture_span, capture_all,
}
use wardex_sdk.Client.Drain.{
  Hook, no_hook, hook_raises, hook_drops, hook_keeps, Export, export_raises, shipped, undelivered,
  Meets, swap_out, abandon, take_back, ship, attach_and_ship, send, drain_batch, drain, close,
}

-- Closed, with nothing buffered.
abbrev pub IsShut : Client → Type 0
IsShut c = (c.spans ≡ []) × (c.snapshots ≡ []) × (c.closed ≡ true)

IsShut-if : (b : Bool) (c d : Client) → IsShut c → IsShut d → IsShut (if b then c else d)
IsShut-if true c d p q = p
IsShut-if false c d p q = q

IsShut-when : (b : Bool) (c d : Client) → b ≡ true → IsShut c → IsShut (if b then c else d)
IsShut-when true c d e p = p
IsShut-when false c d e p = cc

IsShut-unless : (b : Bool) (c d : Client) → b ≡ false → IsShut d → IsShut (if b then c else d)
IsShut-unless true c d e p = cc
IsShut-unless false c d e p = p

report_lost-IsShut : (n : ℕ) (c : Client) → IsShut c → IsShut (report_lost n c)
unfolding report_lost tell
report_lost-IsShut n c h =
    IsShut-if (nat_eq n 0) c
      (tell (recorded DropReason.shutdown_tail none n) (record c { lost = c.lost + n })) h h

capture_all-IsShut : (ss : List Span) (c : Client) → IsShut c → IsShut (capture_all ss c)
unfolding capture_all capture_span tell
capture_all-IsShut [] c h = h
capture_all-IsShut (s ∷ ss) c h =
    capture_all-IsShut ss (capture_span s c)
      (IsShut-when c.closed (tell (recorded DropReason.after_close none 1) c) (admit s c) h.2 h)

module _ (ss : List Span) (xs : List ℕ) where
  attach_and_ship-IsShut :
      (export : Export) (n m : ℕ) (c : Client)
      → IsShut c
      → IsShut (attach_and_ship true export n m ss xs c)
  unfolding attach_and_ship ship tell take_back
  attach_and_ship-IsShut (export_raises true) n m c h = h
  attach_and_ship-IsShut (export_raises false) n m c h = h
  attach_and_ship-IsShut shipped n m c h = h
  attach_and_ship-IsShut undelivered n m c h =
      report_lost-IsShut (length ss + length xs) (tell (attached (length ss + length xs)) c) h

  send-IsShut :
      (hook : Hook) (export : Export) (c : Client)
      → IsShut c
      → IsShut (send true hook export ss xs c)
  unfolding send tell
  send-IsShut no_hook export c h = attach_and_ship-IsShut export (length ss) (length xs) c h
  send-IsShut hook_raises export c h = h
  send-IsShut hook_drops export c h = h
  send-IsShut (hook_keeps n m) export c h = attach_and_ship-IsShut export n m c h

  drain_batch-IsShut : (env : Meets) (c : Client) → IsShut c → IsShut (drain_batch true env ss xs c)
  unfolding drain_batch
  drain_batch-IsShut env c h =
      let d = capture_all env.meanwhile c in
      let k = capture_all-IsShut env.meanwhile c h in
      IsShut-if (is_empty ss && is_empty xs)
        (if env.due then attach_and_ship true env.export 0 0 ss xs d else d)
        (send true env.hook env.export ss xs d)
        (IsShut-if env.due (attach_and_ship true env.export 0 0 ss xs d) d
          (attach_and_ship-IsShut env.export 0 0 d k) k)
        (send-IsShut env.hook env.export d k)

swap_out-IsShut : (c : Client) → c.closed ≡ true → IsShut (swap_out c)
unfolding swap_out
swap_out-IsShut c e = (refl, refl, e)

drain-IsShut : (env : Meets) (c : Client) → c.closed ≡ true → IsShut (drain true env c)
unfolding drain abandon
drain-IsShut env c e =
    IsShut-if env.slot (drain_batch true env c.spans c.snapshots (swap_out c)) (abandon c)
      (drain_batch-IsShut c.spans c.snapshots env (swap_out c) (swap_out-IsShut c e))
      (report_lost-IsShut (length c.spans + length c.snapshots) (swap_out c) (swap_out-IsShut c e))

closed_if :
    (b : Bool) (c d : Client)
    → c.closed ≡ true
    → d.closed ≡ true
    → (if b then c else d).closed ≡ true
closed_if true c d p q = p
closed_if false c d p q = q

closed-make_room :
    (size : ℕ) (ss : List Span) (c : Client) → c.closed ≡ true → (make_room size ss c).closed ≡ true
unfolding make_room evict_oldest tell
closed-make_room size [] c e = e
closed-make_room size (s ∷ rest) c e =
    closed_if (is_full_for size c) (make_room size rest (evict_oldest (s ∷ rest) c)) c
      (closed-make_room size rest (evict_oldest (s ∷ rest) c) e) e

closed-report_lost : (n : ℕ) (c : Client) → c.closed ≡ true → (report_lost n c).closed ≡ true
unfolding report_lost tell
closed-report_lost n c e =
    closed_if (nat_eq n 0) c
      (tell (recorded DropReason.shutdown_tail none n) (record c { lost = c.lost + n })) e e

closed-admit_all : (ss : List Span) (c : Client) → c.closed ≡ true → (admit_all ss c).closed ≡ true
unfolding admit_all admit append_span
closed-admit_all [] c e = e
closed-admit_all (s ∷ ss) c e = closed-admit_all ss (admit s c) (
    closed_if c.finalize_drained (report_lost 1 c) (append_span s (make_room s.size c.spans c))
      (closed-report_lost 1 c e) (closed-make_room s.size c.spans c e))

-- A close of an open client leaves it closed with nothing buffered, whether or not it gets the export
-- slot, and whatever the hook and the transport do and other threads capture meanwhile.
pub close-IsShut :
    (deferred : List Span) (env : Meets) (c : Client)
    → c.closed ≡ false
    → IsShut (close deferred env c)
unfolding close
close-IsShut deferred env c was_open =
    let d = record (admit_all deferred (record c { closed = true })) { finalize_drained = true } in
    IsShut-unless c.closed c (drain true env d) was_open
      (drain-IsShut env d (closed-admit_all deferred (record c { closed = true }) refl))

close_again : (b : Bool) (c d : Client) → c.closed ≡ b → b ≡ true → (if b then c else d) ≡ c
close_again true c d e p = refl
close_again false c d e p = cc

close-closed :
    (deferred : List Span) (env : Meets) (c : Client) → c.closed ≡ true → close deferred env c ≡ c
unfolding close
close-closed deferred env c e = close_again c.closed c _ refl e
