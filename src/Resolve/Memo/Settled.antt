-- ===== src/Resolve/Memo/Settled.antt =====
-- Where `resolve_events_memo` ends, and what its report says.
use fanotify_fid.Base.{
  ℕ, ℤ, ◌+◌, ◌≤◌, ◌≡◌, ◌==◌, max, refl, sym, subst, ap, ◌∙◌, ◌⊎◌, inl, inr, Bool, true, false,
  Bool-cases, Option, List, arith, ==_iff, if◌then◌else◌, again, leave, loop_inv, length,
}
use fanotify_fid.Bytes.{Bytes}
use fanotify_fid.Fid.Event.{Fsid, FilePath, FidEvent}
use fanotify_fid.Handle.Mounts.{Mounts}
use fanotify_fid.Handle.Open.{IoResult}
use fanotify_fid.Handle.Store.{PathMemo}
use fanotify_fid.Resolve.Batch.{Resolution}
use fanotify_fid.Resolve.Again.{seen}
use fanotify_fid.Resolve.Memo.Idle.{
  pass, seen-pass, length-pass, passes-pass, pass_idle, pass_counts,
}
use fanotify_fid.Resolve.Memo.Passes.{
  default, missing, MemoState, missing-memo_each, one_pass, after_pass, memo_round,
  resolve_events_memo,
}

module _ {ℓ} {S : Type ℓ} (memo : PathMemo S) (view : S → Fsid → Bytes → Option FilePath)
    (sys_open : ℤ → Bytes → IoResult ℤ) (read_link : ℤ → IoResult FilePath) (mounts : Mounts)
    (fallback : Bool) where
  abbrev passed : List FidEvent → S → Resolution → List FidEvent × S × Resolution
  passed es s n = pass memo view sys_open read_link mounts fallback es s n

  -- A batch and a store to which another pass, whatever counts it starts from, does nothing.
  pub record IsSettled (es : List FidEvent) (s : S) (n : Resolution) : Type ℓ where
    pub same_events : (passed es s n).0 ≡ es
    pub same_store : (passed es s n).1 ≡ s
    pub resolves_none : (passed es s n).2.resolved ≡ n.resolved

  idle-IsSettled :
      (es : List FidEvent) (s : S) (n n' : Resolution)
      → (passed es s n).2.resolved ≡ n.resolved
      → IsSettled es s n'
  idle-IsSettled es s n n' h =
      let h' : (passed es s n').2.resolved ≡ n'.resolved = omega (
        arith,
        h,
        (missing-memo_each memo view sys_open read_link mounts fallback es s n).0,
        (missing-memo_each memo view sys_open read_link mounts fallback es s n').0,
        ap missing (pass_counts memo view sys_open read_link mounts fallback es s n n'),
      ) in
      let same = pass_idle memo view sys_open read_link mounts fallback es s n' h' in
      record { same_events = same.0; same_store = same.1; resolves_none = h' }

  module _ (total lacking : ℕ) where
    -- The report of a pass over the batch, and how many passes worked.
    record IsReport (es : List FidEvent) (passes : ℕ) (n : Resolution) : Type 0 where
      adds_up : seen n ≡ total
      left_over : n.unresolved ≡ missing es
      numbered : n.passes ≡ passes

    record Working (m : MemoState S) : Type 0 where
      size : length m.events ≡ total
      progress : m.passes + missing m.events ≤ lacking
      report : (m.passes ≡ 0) ⊎ IsReport m.events m.passes m.best

    pub record IsOutcome (r : List FidEvent × S × Resolution) : Type ℓ where
      pub settled : (n : Resolution) → IsSettled r.0 r.1 n
      pub adds_up : seen r.2 ≡ total
      pub left_over : r.2.unresolved ≡ missing r.0
      pub bounded : r.2.passes ≤ max 1 lacking

    one_pass-IsReport :
        (m : MemoState S)
        → Working m
        → let p = one_pass memo view sys_open read_link mounts fallback m in
          IsReport p.0 (m.passes + 1) p.2
    unfolding one_pass default
    one_pass-IsReport m w =
        let start = record default { passes = m.passes + 1 } in
        record {
          adds_up =
              seen-pass memo view sys_open read_link mounts fallback m.events m.store start
              ∙ (unfold seen in omega (arith, w.size));
          left_over = omega (
            arith,
            (missing-memo_each memo view sys_open read_link mounts fallback m.events m.store
                start).1,
          );
          numbered =
              passes-pass memo view sys_open read_link mounts fallback m.events m.store start;
        }

    module _ (m : MemoState S) (w : Working m) where
      abbrev p : List FidEvent × S × Resolution
      p = one_pass memo view sys_open read_link mounts fallback m

      abbrev next : MemoState S
      next = record { events = p.0; store = p.1; passes = m.passes + 1; best = p.2 }

      abbrev last : List FidEvent × S × Resolution
      last = (p.0, p.1, if m.passes + 1 == 1 then p.2 else m.best)

      fewer : missing p.0 + p.2.resolved ≡ missing m.events + 0
      unfolding one_pass default
      fewer =
          (missing-memo_each memo view sys_open read_link mounts fallback m.events m.store
            (record default { passes = m.passes + 1 })).0

      same_size : length p.0 ≡ length m.events
      unfolding one_pass
      same_size = length-pass memo view sys_open read_link mounts fallback m.events m.store _

      next-Working : (p.2.resolved == 0) ≡ false → Working next
      next-Working some_resolved = record {
        size = same_size ∙ w.size;
        progress = ground (arith, w.progress, fewer);
        report = inr (one_pass-IsReport m w);
      }

      module _ (none_resolved : p.2.resolved ≡ 0) where
        unchanged : (p.0 ≡ m.events) × (p.1 ≡ m.store)
        unfolding one_pass default
        unchanged =
            pass_idle memo view sys_open read_link mounts fallback m.events m.store
              (record default { passes = m.passes + 1 }) none_resolved

        last-IsSettled : (n : Resolution) → IsSettled p.0 p.1 n
        last-IsSettled n =
            rw (unchanged.0, unchanged.1)
              (idle-IsSettled m.events m.store (record default { passes = m.passes + 1 }) n
                (unfold one_pass default in none_resolved))

        last-IsOutcome : IsOutcome last
        last-IsOutcome = elim (Bool-cases (m.passes + 1 == 1)) [
          | inl first ↦
              let only = one_pass-IsReport m w in
              rw first (record {
                settled = last-IsSettled;
                adds_up = only.adds_up;
                left_over = only.left_over;
                bounded = ground (arith, only.numbered, first);
              })
          | inr later ↦ rw later (elim w.report [
            | inl none_yet ↦ absurd (ground (arith, none_yet, later))
            | inr best ↦ record {
              settled = last-IsSettled;
              adds_up = best.adds_up;
              left_over = best.left_over ∙ ap missing (sym unchanged.0);
              bounded = omega (arith, best.numbered, w.progress);
            }
          ])
        ]

      after_idle :
          (p.2.resolved == 0) ≡ true
          → memo_round memo view sys_open read_link mounts fallback m ≡ leave last
      unfolding memo_round after_pass
      after_idle h = rw h refl

      after_work :
          (p.2.resolved == 0) ≡ false
          → memo_round memo view sys_open read_link mounts fallback m ≡ again next
      unfolding memo_round after_pass
      after_work h = rw h refl

      round-Working :
          (m' : MemoState S)
          → memo_round memo view sys_open read_link mounts fallback m ≡ again m'
          → Working m'
      round-Working m' e = elim (Bool-cases (p.2.resolved == 0)) [
        | inl idle ↦ absurd (cc (after_idle idle, e))
        | inr works ↦ subst Working (cc (after_work works, e)) (next-Working works)
      ]

      round-IsOutcome :
          (r : List FidEvent × S × Resolution)
          → memo_round memo view sys_open read_link mounts fallback m ≡ leave r
          → IsOutcome r
      round-IsOutcome r e = elim (Bool-cases (p.2.resolved == 0)) [
        | inl idle ↦
            subst IsOutcome (cc (after_idle idle, e)) (last-IsOutcome ((==_iff _ 0).0 idle))
        | inr works ↦ absurd (cc (after_work works, e))
      ]

  -- The passes end: over the events and the store that are left, one more pass changes nothing and
  -- resolves none. The three counts of the report add up to the batch, its unresolved events are
  -- those that are left without a path, and it numbers no more passes than there were events
  -- without a path, or one.
  pub resolve_events_memo-IsOutcome :
      (es : List FidEvent) (s : S)
      → IsOutcome
          (length es)
          (missing es)
          (resolve_events_memo memo view sys_open read_link mounts fallback es s)
  unfolding resolve_events_memo
  resolve_events_memo-IsOutcome es s =
      loop_inv _ _ _ {P = Working (length es) (missing es)} {Q = IsOutcome (length es) (missing es)}
        (λ m m' w e. round-Working (length es) (missing es) m w m' e)
        (λ m r w e. round-IsOutcome (length es) (missing es) m w r e) _
        (record { size = refl; progress = omega arith; report = inl refl })
