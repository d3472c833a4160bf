-- ===== src/Assembly/Units/Gone.antt =====
-- What a close makes of the registry: a live unit goes with its subtree, and nothing else does.
use mathlib.Core.Path.{subst}
use wardex_sdk.Prelude.{
  ℕ, ◌<◌, ◌≤◌, true, false, not, ◌&&◌, some, List, [], ◌∷◌, nat_eq, includes, ◌≡◌, refl, sym, ap,
  ◌∙◌, arith, Bool-cases, inl, inr, nat_eq_iff, if_true,
}
use wardex_sdk.Prelude.Dicts.{get}
use wardex_sdk.Assembly.Builder.Draft.{SpanDraft}
use wardex_sdk.Assembly.Units.State.{UnitKey, unit_key_Eq, Registry}
use wardex_sdk.Assembly.Units.Tables.{is_key_in}
use wardex_sdk.Assembly.Units.Close.{
  Ending, Collected, collected, detach_locked, detach_each, close_locked,
}
use wardex_sdk.Assembly.Units.Detached.{detach_locked-IsDetached}
use wardex_sdk.Assembly.Units.Sound.{IsSound, Placed, detached-IsSound}
use wardex_sdk.Assembly.Units.Grown.{IsGrown, Due, is_open_in}
use wardex_sdk.Assembly.Units.Collecting.{Nested, collect_locked-IsGrown}

-- Exactly the doomed are gone, and the drafts are as before.
pub record IsGone (doomed : List ℕ) (r s : Registry) : Type 0 where
  pub live : (v : ℕ) → (s.units v).live ≡ ((r.units v).live && not (includes v doomed))
  pub draft : (v : ℕ) → (s.units v).draft ≡ (r.units v).draft
  pub context : (v : ℕ) → (s.units v).context ≡ (r.units v).context
  pub opened :
      (v x : ℕ) → is_open_in x (s.units v).opened ≡ true → is_open_in x (r.units v).opened ≡ true
  pub drafts : s.drafts ≡ r.drafts
  pub next_draft : s.next_draft ≡ r.next_draft
  pub next_unit : s.next_unit ≡ r.next_unit
  pub emitted : s.emitted ≡ r.emitted

detached_opened :
    (task u v x : ℕ) (r : Registry)
    → is_open_in x ((detach_locked task u r).units v).opened ≡ true
    → is_open_in x (r.units v).opened ≡ true
unfolding is_open_in
detached_opened task u v x r h =
    let one = detach_locked-IsDetached task u r in
    elim (Bool-cases (nat_eq v u)) [
      | inl same ↦
          let here : v ≡ u = (nat_eq_iff v u).0 same in
          let told =
            subst (λ w. is_open_in x ((detach_locked task u r).units w).opened ≡ true) here h in
          absurd (ground (arith, one.opened_here))
      | inr other ↦ ap (is_open_in x) (sym (one.opened v other)) ∙ h
    ]

pub detach_each-IsGone :
    (task : ℕ) (doomed : List ℕ) (r : Registry) → IsGone doomed r (detach_each task doomed r)
unfolding detach_each detach_locked includes
detach_each-IsGone task [] r = record {
  live = λ v. ground arith;
  draft = λ v. refl;
  context = λ v. refl;
  opened = λ v x h. h;
  drafts = refl;
  next_draft = refl;
  next_unit = refl;
  emitted = refl;
}
detach_each-IsGone task (d ∷ doomed) r =
    let one = detach_locked-IsDetached task d r in
    let rest = detach_each-IsGone task doomed (detach_locked task d r) in
    record {
      live = λ v. ground (arith, rest.live v, one.live v);
      draft = λ v. rest.draft v ∙ one.draft v;
      context = λ v. rest.context v ∙ one.context v;
      opened = λ v x h. detached_opened task d v x r (rest.opened v x h);
      drafts = rest.drafts;
      next_draft = rest.next_draft;
      next_unit = rest.next_unit;
      emitted = rest.emitted;
    }

pub detach_each-IsSound :
    (task n : ℕ) (doomed : List ℕ) (r : Registry)
    → IsSound n doomed r
    → IsSound n [] (detach_each task doomed r)
unfolding detach_each
detach_each-IsSound task n [] r h = h
detach_each-IsSound task n (d ∷ doomed) r h =
    detach_each-IsSound task n doomed (detach_locked task d r)
      (detached-IsSound n d doomed r (detach_locked task d r) h (detach_locked-IsDetached task d r))

-- Doomed units and their parents are among the first `n`.
detach_each_beyond :
    (task n : ℕ) (doomed : List ℕ) (r : Registry)
    → ((d : ℕ) → includes d doomed ≡ true → d < n)
    → ((d p : ℕ) → d < n → (r.units d).parent ≡ some p → p < d)
    → (v : ℕ) → n ≤ v
    → (detach_each task doomed r).units v ≡ r.units v
unfolding detach_each includes
detach_each_beyond task n [] r within older v far = refl
detach_each_beyond task n (d ∷ doomed) r within older v far =
    let one = detach_locked-IsDetached task d r in
    let near : d < n = within d (ground arith) in
    detach_each_beyond task n doomed (detach_locked task d r) (λ c m. within c (ground arith))
      (λ c p lt e. older c p lt (sym (one.parent c) ∙ e)) v far
    ∙ one.elsewhere v (ground arith) (λ p e. let below = older d p near e in ground arith)

-- A registry whose tree stands, where the unit `u` may have lost its place.
pub record IsLoose (n u : ℕ) (r : Registry) : Type 0 where
  pub known : (v : ℕ) → includes v r.live_units ≡ true → v < n
  pub listed : (v : ℕ) → v < n → includes v r.live_units ≡ (r.units v).live
  pub rooted : (v : ℕ) → includes v r.roots ≡ true → (v < n) × ((r.units v).live ≡ true)
  pub placed : (v : ℕ) → v < n → (r.units v).live ≡ true → nat_eq u v ≡ false → Placed [] r v
  pub older : (v p : ℕ) → v < n → (r.units v).parent ≡ some p → p < v
  pub child :
      (p c : ℕ)
      → p < n
      → includes c (r.units p).children ≡ true
      → (c < n) × ((r.units c).parent ≡ some p) × ((r.units c).live ≡ true)
  pub aliased :
      (k : UnitKey) (v : ℕ)
      → get k r.by_alias ≡ some v
      → (v < n) × ((r.units v).live ≡ true) × (is_key_in k (r.units v).alias_keys ≡ true)

pub IsSound-IsLoose : (n u : ℕ) (r : Registry) → IsSound n [] r → IsLoose n u r
unfolding includes
IsSound-IsLoose n u r h = record {
  known = h.known;
  listed = h.listed;
  rooted = h.rooted;
  placed = λ v lt e other. h.placed v lt e refl;
  older = h.older;
  child = h.child;
  aliased = h.aliased;
}

-- A list of units that has the children of its members, and the unit without a place, may go.
doomed-IsSound :
    (n u : ℕ) (doomed : List ℕ) (r : Registry)
    → IsLoose n u r
    → includes u doomed ≡ true
    → ((v k : ℕ)
        → includes v doomed ≡ true
        → includes k (r.units v).children ≡ true
        → includes k doomed ≡ true)
    → IsSound n doomed r
unfolding Placed
doomed-IsSound n u doomed r h mine closed = record {
  known = h.known;
  listed = h.listed;
  rooted = h.rooted;
  placed = λ v lt e spared. elim (Bool-cases (nat_eq u v)) [
    | inl same ↦
        absurd
          (ground (arith, subst (λ w. includes w doomed ≡ true) ((nat_eq_iff u v).0 same) mine))
    | inr other ↦ elim (h.placed v lt e other) [
      | inl root ↦ inl root
      | inr (p, named, living, held, safe) ↦ elim (Bool-cases (includes p doomed)) [
        | inl going ↦ absurd (ground (arith, closed p v going held))
        | inr staying ↦ inr (p, named, living, held, staying)
      ]
    ]
  ];
  older = h.older;
  child = h.child;
  aliased = h.aliased;
}

nested_of : (n u : ℕ) (r : Registry) → IsLoose n u r → Nested r.units n u
unfolding Nested
nested_of n u r h p c lt held = let q = h.child p c lt held in (h.older c p q.0 q.1, q.0, q.2)

-- Other drafts make no difference to the units.
written-IsSound :
    (n : ℕ) (doomed : List ℕ) (r : Registry) (store : ℕ → SpanDraft)
    → IsSound n doomed r
    → IsSound n doomed (record r { drafts = store })
unfolding Placed
written-IsSound n doomed r store h = record {
  known = h.known;
  listed = h.listed;
  rooted = h.rooted;
  placed = h.placed;
  older = h.older;
  child = h.child;
  aliased = h.aliased;
}

-- What a close of a live unit gathers, and where that leaves the registry.
pub record IsClosed (n u : ℕ) (r : Registry) (after : Registry × List ℕ) : Type 0 where
  pub doomed : List ℕ
  pub sound : IsSound n [] after.0
  pub mine : includes u doomed ≡ true
  pub units : (v : ℕ) → includes v doomed ≡ true → (v < n) × ((r.units v).live ≡ true) × (u ≤ v)
  pub live : (v : ℕ) → (after.0.units v).live ≡ ((r.units v).live && not (includes v doomed))
  pub draft : (v : ℕ) → (after.0.units v).draft ≡ (r.units v).draft
  pub context : (v : ℕ) → (after.0.units v).context ≡ (r.units v).context
  pub opened :
      (v x : ℕ)
      → is_open_in x (after.0.units v).opened ≡ true
      → is_open_in x (r.units v).opened ≡ true
  pub beyond : (v : ℕ) → n ≤ v → after.0.units v ≡ r.units v
  pub flags : (x : ℕ) → (after.0.drafts x).emitted ≡ (r.drafts x).emitted
  pub owed : (v : ℕ) → includes v doomed ≡ true → includes (r.units v).draft after.1 ≡ true
  pub due :
      (x : ℕ) → includes x after.1 ≡ true → (v : ℕ) × (includes v doomed ≡ true) × Due r.units v x
  pub next_draft : after.0.next_draft ≡ r.next_draft
  pub next_unit : after.0.next_unit ≡ r.next_unit
  pub emitted : after.0.emitted ≡ r.emitted

module _ (task n u : ℕ) (e : Ending) (r : Registry) (h : IsLoose n u r) (lt : u < n)
    (lives : (r.units u).live ≡ true) (enough : n ≤ r.next_unit) where
  gathered : Collected
  gathered = collected e u r

  grown :
      IsGrown r.units n u (record { drafts = r.drafts; pending = []; doomed = [] }) gathered
      × (includes u gathered.doomed ≡ true)
  unfolding gathered
  grown =
      collect_locked-IsGrown r.units n u r.next_unit u e (nested_of n u r h) lt lives (omega arith)
        (omega (arith, enough)) (record { drafts = r.drafts; pending = []; doomed = [] })

  -- The unit itself is among those that go.
  pub collected_mine : includes u (collected e u r).doomed ≡ true
  unfolding gathered
  collected_mine = grown.1

  written : Registry
  written = record r { drafts = gathered.drafts }

  going-IsClosed : IsClosed n u r (detach_each task gathered.doomed written, gathered.pending)
  unfolding written includes
  going-IsClosed =
      let g = grown.0 in
      let gone = detach_each-IsGone task gathered.doomed written in
      record {
        doomed = gathered.doomed;
        sound = detach_each-IsSound task n gathered.doomed written (
            written-IsSound n gathered.doomed r gathered.drafts (
              doomed-IsSound n u gathered.doomed r h grown.1
                (λ v k m held. g.closed v k m refl held)));
        mine = grown.1;
        units = λ v m. elim (g.doomed_new v m) [ inl none_yet ↦ absurd (cc) | inr q ↦ q ];
        live = gone.live;
        draft = gone.draft;
        context = gone.context;
        opened = gone.opened;
        beyond =
            detach_each_beyond task n gathered.doomed written
              (λ d m. elim (g.doomed_new d m) [ inl none_yet ↦ absurd (cc) | inr q ↦ q.0 ]) h.older;
        flags = λ x. ap (λ store. (store x).emitted) gone.drafts ∙ g.flags x;
        owed = λ v m. elim (g.owed v m) [ inl none_yet ↦ absurd (cc) | inr q ↦ q ];
        due = λ x m. elim (g.due x m) [ inl none_yet ↦ absurd (cc) | inr q ↦ q ];
        next_draft = gone.next_draft;
        next_unit = gone.next_unit;
        emitted = gone.emitted;
      }

  pub close_locked-IsClosed : IsClosed n u r (close_locked task e u r)
  unfolding close_locked written gathered
  close_locked-IsClosed =
      subst (IsClosed n u r)
        (sym (
          if_true (r.units u).live (detach_each task gathered.doomed written, gathered.pending)
            (r, []) lives))
        going-IsClosed
