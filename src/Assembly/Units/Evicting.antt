-- ===== src/Assembly/Units/Evicting.antt =====
-- Evictions and closes, on a registry whose tree stands and whose books are even.
use mathlib.Core.Path.{subst}
use wardex_sdk.Prelude.{
  ℕ, zero, suc, ◌<◌, ◌≤◌, true, false, List, [], ◌∷◌, ◌++◌, nat_eq, includes, ◌≡◌, refl, sym, ap,
  ◌∙◌, arith, if_false, holds_if, Bool-cases, inl, inr,
}
use wardex_sdk.Assembly.Integrity.{Limitation, unit_evicted}
use wardex_sdk.Assembly.Units.State.{Registry, change}
use wardex_sdk.Assembly.Units.Tables.{note}
use wardex_sdk.Assembly.Units.Close.{
  Ending, unset_at, close_locked, mark_evicted, evict_root_locked,
}
use wardex_sdk.Assembly.Units.Open.{evict_while_full, evict_while_rooted}
use wardex_sdk.Assembly.Units.Sound.{IsSound}
use wardex_sdk.Assembly.Units.Grown.{note_on_flags}
use wardex_sdk.Assembly.Units.Gone.{IsLoose, IsSound-IsLoose, close_locked-IsClosed}
use wardex_sdk.Assembly.Units.Paid.{IsPaid, closed-IsPaid}
use wardex_sdk.Assembly.Units.Alike.{
  alike-IsSound, even-IsPaid, Keeps, kept-IsAlike, kept-IsEven, note-IsAlike, note-IsEven,
}

-- The tree of the first `n` units stands, and their books are even but for what is pending.
pub record IsGood (n m : ℕ) (pending : List ℕ) (r : Registry) : Type 0 where
  pub sound : IsSound n [] r
  pub paid : IsPaid n m pending r
  pub room : n ≤ r.next_unit

-- What lies beyond the first `n` units stays, and no draft is emitted.
pub record IsAfter (n : ℕ) (r s : Registry) : Type 0 where
  pub beyond : (v : ℕ) → n ≤ v → s.units v ≡ r.units v
  pub flags : (x : ℕ) → (s.drafts x).emitted ≡ (r.drafts x).emitted
  pub next_unit : s.next_unit ≡ r.next_unit
  pub next_draft : s.next_draft ≡ r.next_draft
  pub emitted : s.emitted ≡ r.emitted

pub same-IsAfter : (n : ℕ) (r : Registry) → IsAfter n r r
same-IsAfter n r = record {
  beyond = λ v far. refl;
  flags = λ x. refl;
  next_unit = refl;
  next_draft = refl;
  emitted = refl;
}

pub IsAfter-trans : (n : ℕ) (r s t : Registry) → IsAfter n r s → IsAfter n s t → IsAfter n r t
IsAfter-trans n r s t a b = record {
  beyond = λ v far. b.beyond v far ∙ a.beyond v far;
  flags = λ x. b.flags x ∙ a.flags x;
  next_unit = b.next_unit ∙ a.next_unit;
  next_draft = b.next_draft ∙ a.next_draft;
  emitted = b.emitted ∙ a.emitted;
}

-- A part of an operation that leaves drafts to emit.
pub record IsDone (n m : ℕ) (pending : List ℕ) (r : Registry) (after : Registry × List ℕ)
    : Type 0 where
  pub good : IsGood n m (pending ++ after.1) after.0
  pub rest : IsAfter n r after.0

pub append_nil : (xs : List ℕ) → xs ++ [] ≡ xs
append_nil [] = refl
append_nil (x ∷ xs) = ap (λ ys. x ∷ ys) (append_nil xs)

pub append_assoc : (xs ys zs : List ℕ) → (xs ++ ys) ++ zs ≡ xs ++ (ys ++ zs)
append_assoc [] ys zs = refl
append_assoc (x ∷ xs) ys zs = ap (λ ws. x ∷ ws) (append_assoc xs ys zs)

-- A close of a unit that is not live changes nothing.
pub close_dead :
    (task u : ℕ) (e : Ending) (r : Registry)
    → (r.units u).live ≡ false
    → close_locked task e u r ≡ (r, [])
unfolding close_locked
close_dead task u e r dead = if_false (r.units u).live _ (r, []) dead

module _ (n m : ℕ) (pending : List ℕ) where
  pub idle-IsDone : (r : Registry) → IsGood n m pending r → IsDone n m pending r (r, [])
  idle-IsDone r h = record {
    good = subst (λ p. IsGood n m p r) (sym (append_nil pending)) h;
    rest = same-IsAfter n r;
  }

  -- A close of a live unit, which may have lost its place.
  pub close_loose-IsDone :
      (task u : ℕ) (e : Ending) (r : Registry)
      → IsLoose n u r
      → IsPaid n m pending r
      → n ≤ r.next_unit
      → u < n
      → (r.units u).live ≡ true
      → IsDone n m pending r (close_locked task e u r)
  close_loose-IsDone task u e r loose paid room lt lives =
      let c = close_locked-IsClosed task n u e r loose lt lives room in
      record {
        good = record {
          sound = c.sound;
          paid = closed-IsPaid n m u pending r (close_locked task e u r) paid c;
          room = rw c.next_unit room;
        };
        rest = record {
          beyond = c.beyond;
          flags = c.flags;
          next_unit = c.next_unit;
          next_draft = c.next_draft;
          emitted = c.emitted;
        };
      }

  pub close_locked-IsDone :
      (task u : ℕ) (e : Ending) (r : Registry)
      → IsGood n m pending r
      → u < n
      → IsDone n m pending r (close_locked task e u r)
  close_locked-IsDone task u e r h lt = elim (Bool-cases (r.units u).live) [
    | inl lives ↦
        close_loose-IsDone task u e r (IsSound-IsLoose n u r h.sound) h.paid h.room lt lives
    | inr dead ↦ subst (IsDone n m pending r) (sym (close_dead task u e r dead)) (idle-IsDone r h)
  ]

  pub note-IsGood :
      (u : ℕ) (marker : Limitation) (r : Registry)
      → IsGood n m pending r
      → IsGood n m pending (note marker u r)
  note-IsGood u marker r h = record {
    sound = alike-IsSound n r (note marker u r) (note-IsAlike n m u marker r) h.sound;
    paid = even-IsPaid n m pending r (note marker u r) (note-IsEven n m u marker r) h.paid;
    room = unfold note in h.room;
  }

  marked-Keeps : Keeps (λ unit. record unit { evicted = true })
  marked-Keeps = record {
    live = λ unit. refl;
    parent = λ unit. refl;
    children = λ unit. refl;
    alias_keys = λ unit. refl;
    draft = λ unit. refl;
    opened = λ unit. refl;
  }

  pub mark_evicted-IsGood :
      (u : ℕ) (r : Registry) → IsGood n m pending r → IsGood n m pending (mark_evicted u r)
  unfolding mark_evicted
  mark_evicted-IsGood u r h = record {
    sound = alike-IsSound n r (mark_evicted u r) (kept-IsAlike n m u _ marked-Keeps r) h.sound;
    paid = even-IsPaid n m pending r (mark_evicted u r) (kept-IsEven n m u _ marked-Keeps r) h.paid;
    room = h.room;
  }

  pub noted-IsAfter : (u : ℕ) (marker : Limitation) (r : Registry) → IsAfter n r (note marker u r)
  unfolding note
  noted-IsAfter u marker r = record {
    beyond = λ v far. refl;
    flags = λ x. note_on_flags marker u r.units r.drafts x;
    next_unit = refl;
    next_draft = refl;
    emitted = refl;
  }

  marked-IsAfter : (u : ℕ) (r : Registry) → u < n → IsAfter n r (mark_evicted u r)
  unfolding mark_evicted change
  marked-IsAfter u r lt = record {
    beyond = λ v far. if_false (nat_eq v u) _ (r.units v) (ground arith);
    flags = λ x. refl;
    next_unit = refl;
    next_draft = refl;
    emitted = refl;
  }

  -- A unit that is evicted: marked, noted and closed.
  pub evict-IsDone :
      (task now u : ℕ) (marker : Limitation) (r : Registry)
      → IsGood n m pending r
      → u < n
      → IsDone n m pending r (close_locked task (unset_at now) u (note marker u (mark_evicted u r)))
  evict-IsDone task now u marker r h lt =
      let marked = mark_evicted-IsGood u r h in
      let done =
        close_locked-IsDone task u (unset_at now) (note marker u (mark_evicted u r))
          (note-IsGood u marker (mark_evicted u r) marked) lt in
      record {
        good = done.good;
        rest = IsAfter-trans n r (mark_evicted u r) _ (marked-IsAfter u r lt) (
            IsAfter-trans n (mark_evicted u r) (note marker u (mark_evicted u r)) _
              (noted-IsAfter u marker (mark_evicted u r)) done.rest);
      }

  -- One part after another.
  pub then-IsDone :
      (r : Registry) (once rest : Registry × List ℕ)
      → IsDone n m pending r once
      → IsDone n m (pending ++ once.1) once.0 rest
      → IsDone n m pending r (rest.0, once.1 ++ rest.1)
  then-IsDone r once rest a b = record {
    good = subst (λ p. IsGood n m p rest.0) (append_assoc pending once.1 rest.1) b.good;
    rest = IsAfter-trans n r once.0 rest.0 a.rest b.rest;
  }

  pub evict_root-IsDone :
      (task now : ℕ) (roots : List ℕ) (r : Registry)
      → r.roots ≡ roots
      → IsGood n m pending r
      → IsDone n m pending r (evict_root_locked task now roots r)
  unfolding evict_root_locked
  evict_root-IsDone task now [] r e h = idle-IsDone r h
  evict_root-IsDone task now (oldest ∷ roots) r e h =
      let first : includes oldest r.roots ≡ true = unfold includes in ground arith in
      evict-IsDone task now oldest unit_evicted r h (h.sound.rooted oldest first).0

pub evict_while_full-IsDone :
    (n m fuel task now : ℕ) (pending : List ℕ) (r : Registry)
    → IsGood n m pending r
    → IsDone n m pending r (evict_while_full fuel task now r)
unfolding evict_while_full
evict_while_full-IsDone n m zero task now pending r h = idle-IsDone n m pending r h
evict_while_full-IsDone n m (suc fuel) task now pending r h =
    let once = evict_root_locked task now r.roots r in
    let done = evict_root-IsDone n m pending task now r.roots r refl h in
    holds_if (IsDone n m pending r) _ (r, []) _ (λ _. idle-IsDone n m pending r h)
      (λ _.
        then-IsDone n m pending r once (evict_while_full fuel task now once.0) done
          (evict_while_full-IsDone n m fuel task now (pending ++ once.1) once.0 done.good))

pub evict_while_rooted-IsDone :
    (n m fuel task now : ℕ) (pending : List ℕ) (r : Registry)
    → IsGood n m pending r
    → IsDone n m pending r (evict_while_rooted fuel task now r)
unfolding evict_while_rooted
evict_while_rooted-IsDone n m zero task now pending r h = idle-IsDone n m pending r h
evict_while_rooted-IsDone n m (suc fuel) task now pending r h =
    let once = evict_root_locked task now r.roots r in
    let done = evict_root-IsDone n m pending task now r.roots r refl h in
    holds_if (IsDone n m pending r) _ (r, []) _ (λ _. idle-IsDone n m pending r h)
      (λ _.
        then-IsDone n m pending r once (evict_while_rooted fuel task now once.0) done
          (evict_while_rooted-IsDone n m fuel task now (pending ++ once.1) once.0 done.good))
