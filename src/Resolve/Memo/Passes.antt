-- ===== src/Resolve/Memo/Passes.antt =====
-- `resolve_events_memo`: passes until one resolves nothing new. Each other pass leaves fewer events
-- without a path, so the loop ends.
use fanotify_fid.Base.{
  ℕ, ℤ, ◌+◌, ◌<◌, ◌≡◌, ◌==◌, refl, sym, subst, inl, inr, Bool, false, Bool-cases, Option, none,
  some, List, [], ◌∷◌, arith, if◌then◌else◌, Round, again, leave, loop,
}
use fanotify_fid.Bytes.{Bytes}
use fanotify_fid.Fid.Event.{Fsid, FilePath, FidEvent, set_path, has_path}
use fanotify_fid.Handle.Mounts.{Mounts}
use fanotify_fid.Handle.Open.{IoResult}
use fanotify_fid.Handle.Store.{PathMemo}
use fanotify_fid.Resolve.Resolver.{
  PathResolver, EventResolution, resolved, already_resolved, nothing_to_resolve, unresolvable,
  resolve_event,
}
use fanotify_fid.Resolve.Batch.{Resolution, count}
use fanotify_fid.Resolve.Outcome.{outcome, outcome_on, resolve_event-outcome}
use fanotify_fid.Resolve.Memo.{at, resolve_event_memo, memo_each}
use fanotify_fid.Resolve.Memo.Visit.{seen_event, resolve_event_memo-resolve_event}

-- `Resolution::default`
unfoldable pub default : Resolution
default = record { resolved = 0; already_resolved = 0; unresolved = 0; passes = 0 }

unfoldable pub lacks_path : FidEvent → ℕ
lacks_path e = if has_path e then 0 else 1

-- The events of a batch that have no path.
unfoldable pub missing : List FidEvent → ℕ
missing [] = 0
missing (e ∷ es) = lacks_path e + missing es

unfoldable pub gain : EventResolution → ℕ
gain resolved = 1
gain _ = 0

unfoldable pub loss : EventResolution → ℕ
loss nothing_to_resolve = 1
loss unresolvable = 1
loss _ = 0

-- An event that is resolved gets its path; one lacks it afterwards if it counts as unresolved.
abbrev Tallies : FidEvent → EventResolution × FidEvent → Type 0
Tallies e v = (lacks_path v.1 + gain v.0 ≡ lacks_path e) × (lacks_path v.1 ≡ loss v.0)

outcome-Tallies :
    (e : FidEvent) (found : Option FilePath) → has_path e ≡ false → Tallies e (outcome e found)
unfolding lacks_path gain loss outcome
outcome-Tallies e none fresh = ground arith
outcome-Tallies e (some path) fresh = unfold set_path has_path in (ground arith)

module _ (sys_open : ℤ → Bytes → IoResult ℤ) (read_link : ℤ → IoResult FilePath)
    (r : PathResolver) where
  outcome_on-Tallies :
      (e : FidEvent) (fsid : Option Fsid)
      → has_path e ≡ false
      → Tallies e (outcome_on sys_open read_link r e fsid)
  unfolding outcome_on
  outcome_on-Tallies e none fresh = unfold lacks_path gain loss in ground arith
  outcome_on-Tallies e (some fsid) fresh = outcome-Tallies e _ fresh

  resolve_event-Tallies : (e : FidEvent) → Tallies e (resolve_event sys_open read_link r e)
  resolve_event-Tallies e =
      rw (resolve_event-outcome sys_open read_link r e) (elim (Bool-cases (has_path e)) [
        | inl old ↦ rw old (unfold lacks_path gain loss in ground arith)
        | inr fresh ↦ rw fresh (outcome_on-Tallies e e.fsid fresh)
      ])

pub resolved-count :
    (k : EventResolution) (n : Resolution) → (count k n).resolved ≡ gain k + n.resolved
unfolding count gain
resolved-count resolved n = omega arith
resolved-count already_resolved n = omega arith
resolved-count nothing_to_resolve n = omega arith
resolved-count unresolvable n = omega arith

unresolved-count :
    (k : EventResolution) (n : Resolution) → (count k n).unresolved ≡ loss k + n.unresolved
unfolding count loss
unresolved-count resolved n = omega arith
unresolved-count already_resolved n = omega arith
unresolved-count nothing_to_resolve n = omega arith
unresolved-count unresolvable n = omega arith

-- The locals of the loop.
pub record MemoState {ℓ} (S : Type ℓ) : Type ℓ where
  pub events : List FidEvent
  pub store : S
  pub passes : ℕ
  pub best : Resolution

module _ {ℓ} {S : Type ℓ} (memo : PathMemo S) (view : S → Fsid → Bytes → Option FilePath)
    (sys_open : ℤ → Bytes → IoResult ℤ) (read_link : ℤ → IoResult FilePath) (mounts : Mounts)
    (fallback : Bool) where
  -- A pass, by the events without a path that it was given and that it left.
  pub missing-memo_each :
      (es : List FidEvent) (s : S) (n : Resolution)
      → let passed = memo_each memo view sys_open read_link mounts fallback es s n in
        (missing passed.0 + passed.2.resolved ≡ missing es + n.resolved)
        × (missing passed.0 + n.unresolved ≡ passed.2.unresolved)
  unfolding memo_each missing
  missing-memo_each [] s n = (refl, omega arith)
  missing-memo_each (e ∷ es) s n =
      let v = resolve_event_memo memo view sys_open read_link mounts fallback s e in
      let one : Tallies e (seen_event v) =
        subst (Tallies e)
          (sym (resolve_event_memo-resolve_event memo view sys_open read_link mounts fallback s e))
          (resolve_event-Tallies sys_open read_link
            (at memo view sys_open read_link mounts fallback s) e) in
      let rest = missing-memo_each es v.2 (count v.0 n) in
      (
        omega (arith, one, rest, resolved-count v.0 n),
        omega (arith, one, rest, unresolved-count v.0 n),
      )

  unfoldable pub one_pass : MemoState S → List FidEvent × S × Resolution
  one_pass m =
      memo_each memo view sys_open read_link mounts fallback m.events m.store
        (record default { passes = m.passes + 1 })

  -- What a pass that left some events, a store and some counts makes of the state.
  unfoldable pub after_pass :
      MemoState S
      → List FidEvent × S × Resolution
      → Round (MemoState S) (List FidEvent × S × Resolution)
  after_pass m (es, s, this) =
      if this.resolved == 0
      then leave (es, s, if m.passes + 1 == 1 then this else m.best)
      else again (record { events = es; store = s; passes = m.passes + 1; best = this })

  -- The loop goes on only after a pass that resolved something.
  after_pass-shrinks :
      (m m' : MemoState S) (p : List FidEvent × S × Resolution)
      → missing p.0 + p.2.resolved ≡ missing m.events + 0
      → after_pass m p ≡ again m'
      → missing m'.events < missing m.events
  unfolding after_pass
  after_pass-shrinks m m' p h e = ground arith

  unfoldable pub memo_round : MemoState S → Round (MemoState S) (List FidEvent × S × Resolution)
  memo_round m = after_pass m (one_pass m)

  pub memo_round_shrinks :
      (m m' : MemoState S) → memo_round m ≡ again m' → missing m'.events < missing m.events
  unfolding memo_round one_pass default
  memo_round_shrinks m m' h =
      after_pass-shrinks m m' (one_pass m)
        (missing-memo_each m.events m.store (record default { passes = m.passes + 1 })).0 h

  unfoldable pub resolve_events_memo : List FidEvent → S → List FidEvent × S × Resolution
  resolve_events_memo es s =
      loop (λ m. missing m.events) memo_round memo_round_shrinks
        (record { events = es; store = s; passes = 0; best = default })
