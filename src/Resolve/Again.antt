-- ===== src/Resolve/Again.antt =====
-- A second pass over a batch, with the same store and the same answers of the kernel.
use fanotify_fid.Base.{
  ℕ, ℤ, ◌+◌, ◌≡◌, refl, sym, ap, ◌∙◌, inl, inr, Option, none, some, List, [], ◌∷◌, Bool-cases,
  arith, length,
}
use fanotify_fid.Bytes.{Bytes}
use fanotify_fid.Fid.Event.{Fsid, FilePath, FidEvent, set_path, has_path}
use fanotify_fid.Handle.Open.{IoResult}
use fanotify_fid.Resolve.Resolver.{
  PathResolver, EventResolution, resolved, already_resolved, nothing_to_resolve, unresolvable,
  resolve_event,
}
use fanotify_fid.Resolve.Batch.{Resolution, count, resolve_each, resolve_events}
use fanotify_fid.Resolve.Outcome.{first_path, lookups, outcome, outcome_on, resolve_event-outcome}

-- What a resolution becomes in the second pass.
unfoldable pub second_visit : EventResolution → EventResolution
second_visit resolved = already_resolved
second_visit already_resolved = already_resolved
second_visit nothing_to_resolve = nothing_to_resolve
second_visit unresolvable = unresolvable

unfoldable pub second_pass : Resolution → Resolution
second_pass n = record {
  resolved = 0;
  already_resolved = n.resolved + n.already_resolved;
  unresolved = n.unresolved;
  passes = n.passes;
}

count-second_visit :
    (k : EventResolution) (n : Resolution)
    → count (second_visit k) (second_pass n) ≡ second_pass (count k n)
unfolding count second_visit second_pass
count-second_visit resolved n = λ i. record {
  resolved = 0;
  already_resolved =
      (let e : n.resolved + n.already_resolved + 1 ≡ n.resolved + 1 + n.already_resolved =
            omega arith in
          e)
        i;
  unresolved = n.unresolved;
  passes = n.passes;
}
count-second_visit already_resolved n = λ i. record {
  resolved = 0;
  already_resolved =
      (let e : n.resolved + n.already_resolved + 1 ≡ n.resolved + (n.already_resolved + 1) =
            omega arith in
          e)
        i;
  unresolved = n.unresolved;
  passes = n.passes;
}
count-second_visit nothing_to_resolve n = refl
count-second_visit unresolvable n = refl

unfoldable pub seen : Resolution → ℕ
seen n = n.resolved + n.already_resolved + n.unresolved

pub seen-count : (k : EventResolution) (n : Resolution) → seen (count k n) ≡ seen n + 1
unfolding seen count
seen-count resolved n = omega arith
seen-count already_resolved n = omega arith
seen-count nothing_to_resolve n = omega arith
seen-count unresolvable n = omega arith

module _ (sys_open : ℤ → Bytes → IoResult ℤ) (read_link : ℤ → IoResult FilePath)
    (r : PathResolver) where
  abbrev visit : FidEvent → EventResolution × FidEvent
  visit e = resolve_event sys_open read_link r e

  -- What one visit leaves is left alone by the next.
  visit-leaves :
      (e left : FidEvent) (k : EventResolution)
      → visit e ≡ (k, left)
      → visit left ≡ (second_visit k, left)
      → visit (visit e).1 ≡ (second_visit (visit e).0, (visit e).1)
  visit-leaves e left k once twice =
      ap (λ v. visit v.1) once ∙ twice ∙ sym (ap (λ v. (second_visit v.0, v.1)) once)

  visit-found :
      (e : FidEvent) (found : Option FilePath)
      → visit e ≡ outcome e found
      → visit (visit e).1 ≡ (second_visit (visit e).0, (visit e).1)
  unfolding outcome second_visit
  visit-found e none once = visit-leaves e e unresolvable once once
  visit-found e (some path) once = visit-leaves e (set_path e path) resolved once (
      resolve_event-outcome sys_open read_link r (set_path e path)
      ∙ (unfold set_path has_path in refl))

  visit-known :
      (e : FidEvent) (fsid : Option Fsid)
      → visit e ≡ outcome_on sys_open read_link r e fsid
      → visit (visit e).1 ≡ (second_visit (visit e).0, (visit e).1)
  unfolding outcome_on second_visit
  visit-known e none once = visit-leaves e e nothing_to_resolve once once
  visit-known e (some fsid) once =
      visit-found e (first_path (lookups sys_open read_link r e fsid)) once

  visit-visit : (e : FidEvent) → visit (visit e).1 ≡ (second_visit (visit e).0, (visit e).1)
  unfolding second_visit
  visit-visit e = elim (Bool-cases (has_path e)) [
    | inl old ↦
        let once : visit e ≡ (already_resolved, e) =
          resolve_event-outcome sys_open read_link r e ∙ rw old refl in
        visit-leaves e e already_resolved once once
    | inr fresh ↦
        visit-known e e.fsid (resolve_event-outcome sys_open read_link r e ∙ rw fresh refl)
  ]

  resolve_each-again :
      (es : List FidEvent) (n : Resolution)
      → let first = resolve_each sys_open read_link r es n in
        resolve_each sys_open read_link r first.0 (second_pass n) ≡ (first.0, second_pass first.1)
  unfolding resolve_each
  resolve_each-again [] n = refl
  resolve_each-again (e ∷ es) n =
      let rest = resolve_each sys_open read_link r es (count (visit e).0 n) in
      (λ i. (
        (visit-visit e i).1
            ∷ (resolve_each sys_open read_link r rest.0
                (count (visit-visit e i).0 (second_pass n))).0,
        (resolve_each sys_open read_link r rest.0 (count (visit-visit e i).0 (second_pass n))).1,
      ))
      ∙ ap
          (λ m. (
            (visit e).1 ∷ (resolve_each sys_open read_link r rest.0 m).0,
            (resolve_each sys_open read_link r rest.0 m).1,
          ))
          (count-second_visit (visit e).0 n)
      ∙ ap (λ p. ((visit e).1 ∷ p.0, p.1)) (resolve_each-again es (count (visit e).0 n))

  seen-resolve_each :
      (es : List FidEvent) (n : Resolution)
      → seen (resolve_each sys_open read_link r es n).1 ≡ seen n + length es
  unfolding resolve_each
  seen-resolve_each [] n = omega arith
  seen-resolve_each (e ∷ es) n =
      omega (arith, seen-resolve_each es (count (visit e).0 n), seen-count (visit e).0 n)

  -- A batch's three counts add up to its events. A second pass over it, with the same store and the
  -- same answers of the kernel, changes no event and resolves none: it counts as already resolved
  -- those that the first pass resolved or found so, and as unresolved the same number.
  pub resolve_events-again :
      (es : List FidEvent)
      → let first = resolve_events sys_open read_link r es in
        (resolve_events sys_open read_link r first.0 ≡ (first.0, second_pass first.1))
        × (first.1.resolved + first.1.already_resolved + first.1.unresolved ≡ length es)
  unfolding resolve_events second_pass seen
  resolve_events-again es =
      let start : Resolution = record {
        resolved = 0;
        already_resolved = 0;
        unresolved = 0;
        passes = 1;
      } in
      (resolve_each-again es start, seen-resolve_each es start ∙ omega arith)
