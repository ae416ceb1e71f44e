-- ===== src/Resolve/Memo/Idle.antt =====
-- A pass that resolves nothing changes nothing, neither the events nor the store.
use fanotify_fid.Base.{
  ℤ, ◌+◌, ◌≤◌, ◌≡◌, refl, ap, ◌∙◌, inl, inr, Bool, Bool-cases, Option, none, some, List, [], ◌∷◌,
  arith, length,
}
use fanotify_fid.Bytes.{Bytes}
use fanotify_fid.Fid.Event.{Fsid, FilePath, FidEvent, RenameSide, has_path}
use fanotify_fid.Handle.Mounts.{Mounts}
use fanotify_fid.Handle.Open.{IoResult}
use fanotify_fid.Handle.Store.{PathMemo}
use fanotify_fid.Resolve.Resolver.{
  EventResolution, resolved, already_resolved, nothing_to_resolve, unresolvable,
}
use fanotify_fid.Resolve.Batch.{Resolution, count}
use fanotify_fid.Resolve.Again.{seen, seen-count}
use fanotify_fid.Resolve.Memo.{
  Visit, memo_by_self_handle, memo_by_rename_source, memo_by_dfid_name, memo_on_known_filesystem,
  resolve_event_memo, memo_each,
}
use fanotify_fid.Resolve.Memo.Learns.{attach_memo_or_inv}
use fanotify_fid.Resolve.Memo.Passes.{gain, resolved-count}

passes-count : (k : EventResolution) (n : Resolution) → (count k n).passes ≡ n.passes
unfolding count
passes-count resolved n = refl
passes-count already_resolved n = refl
passes-count nothing_to_resolve n = refl
passes-count unresolvable n = refl

module _ {ℓ} {S : Type ℓ} (memo : PathMemo S) (view : S → Fsid → Bytes → Option FilePath)
    (sys_open : ℤ → Bytes → IoResult ℤ) (read_link : ℤ → IoResult FilePath) (mounts : Mounts)
    (fallback : Bool) where
  -- An event that is not resolved is left as it is, and teaches the store nothing.
  module _ (s : S) (e : FidEvent) where
    abbrev Idle : Visit S → Type ℓ
    Idle v = gain v.0 ≡ 0 → (v.1 ≡ e) × (v.2 ≡ s)

    by_self_handle-Idle :
        (fsid : Fsid) (handle : Option Bytes)
        → Idle (memo_by_self_handle memo view sys_open read_link mounts fallback s e fsid handle)
    unfolding memo_by_self_handle gain
    by_self_handle-Idle fsid none h = (refl, refl)
    by_self_handle-Idle fsid (some handle) h =
        attach_memo_or_inv Idle e _ _ _ (λ path g. absurd (omega arith)) (λ g. (refl, refl)) h

    by_rename_source-Idle :
        (fsid : Fsid) (source : Option RenameSide)
        → Idle (memo_by_rename_source memo view sys_open read_link mounts fallback s e fsid source)
    unfolding memo_by_rename_source gain
    by_rename_source-Idle fsid none = by_self_handle-Idle fsid e.self_handle
    by_rename_source-Idle fsid (some side) =
        attach_memo_or_inv Idle e _ _ _ (λ path g. absurd (omega arith))
          (by_self_handle-Idle fsid e.self_handle)

    by_dfid_name-Idle :
        (fsid : Fsid) (dir : Option Bytes)
        → Idle (memo_by_dfid_name memo view sys_open read_link mounts fallback s e fsid dir)
    unfolding memo_by_dfid_name gain
    by_dfid_name-Idle fsid none = by_rename_source-Idle fsid e.rename_source
    by_dfid_name-Idle fsid (some dir) =
        attach_memo_or_inv Idle e _ _ _ (λ path g. absurd (omega arith))
          (by_rename_source-Idle fsid e.rename_source)

    known_filesystem-Idle :
        (fsid : Option Fsid)
        → Idle (memo_on_known_filesystem memo view sys_open read_link mounts fallback s e fsid)
    unfolding memo_on_known_filesystem
    known_filesystem-Idle none = λ h. (refl, refl)
    known_filesystem-Idle (some fsid) = by_dfid_name-Idle fsid e.dfid_name_handle

    visit-Idle : Idle (resolve_event_memo memo view sys_open read_link mounts fallback s e)
    unfolding resolve_event_memo
    visit-Idle = elim (Bool-cases (has_path e)) [
      | inl old ↦ rw old (λ h. (refl, refl))
      | inr fresh ↦ rw fresh (known_filesystem-Idle e.fsid)
    ]

  abbrev pub pass : List FidEvent → S → Resolution → List FidEvent × S × Resolution
  pass es s n = memo_each memo view sys_open read_link mounts fallback es s n

  le-resolved-pass :
      (es : List FidEvent) (s : S) (n : Resolution) → n.resolved ≤ (pass es s n).2.resolved
  unfolding memo_each
  le-resolved-pass [] s n = omega arith
  le-resolved-pass (e ∷ es) s n =
      let v = resolve_event_memo memo view sys_open read_link mounts fallback s e in
      omega (arith, le-resolved-pass es v.2 (count v.0 n), resolved-count v.0 n)

  pub seen-pass :
      (es : List FidEvent) (s : S) (n : Resolution) → seen (pass es s n).2 ≡ seen n + length es
  unfolding memo_each
  seen-pass [] s n = omega arith
  seen-pass (e ∷ es) s n =
      let v = resolve_event_memo memo view sys_open read_link mounts fallback s e in
      omega (arith, seen-pass es v.2 (count v.0 n), seen-count v.0 n)

  pub length-pass :
      (es : List FidEvent) (s : S) (n : Resolution) → length (pass es s n).0 ≡ length es
  unfolding memo_each
  length-pass [] s n = refl
  length-pass (e ∷ es) s n =
      let v = resolve_event_memo memo view sys_open read_link mounts fallback s e in
      omega (arith, length-pass es v.2 (count v.0 n))

  -- A pass that resolves nothing changes nothing.
  pub pass_idle :
      (es : List FidEvent) (s : S) (n : Resolution)
      → (pass es s n).2.resolved ≡ n.resolved
      → ((pass es s n).0 ≡ es) × ((pass es s n).1 ≡ s)
  unfolding memo_each
  pass_idle [] s n h = (refl, refl)
  pass_idle (e ∷ es) s n h =
      let v = resolve_event_memo memo view sys_open read_link mounts fallback s e in
      let none_here : gain v.0 ≡ 0 =
        omega (arith, h, le-resolved-pass es v.2 (count v.0 n), resolved-count v.0 n) in
      let same = visit-Idle s e none_here in
      let rest = pass_idle es v.2 (count v.0 n) (omega (arith, h, resolved-count v.0 n)) in
      (λ i. same.0 i ∷ rest.0 i, rest.1 ∙ same.1)

  -- What a pass does to the events does not depend on the counts that it starts from.
  pub pass_counts :
      (es : List FidEvent) (s : S) (n n' : Resolution) → (pass es s n).0 ≡ (pass es s n').0
  unfolding memo_each
  pass_counts [] s n n' = refl
  pass_counts (e ∷ es) s n n' =
      let v = resolve_event_memo memo view sys_open read_link mounts fallback s e in
      ap (λ t. v.1 ∷ t) (pass_counts es v.2 (count v.0 n) (count v.0 n'))

  pub passes-pass :
      (es : List FidEvent) (s : S) (n : Resolution) → (pass es s n).2.passes ≡ n.passes
  unfolding memo_each
  passes-pass [] s n = refl
  passes-pass (e ∷ es) s n =
      let v = resolve_event_memo memo view sys_open read_link mounts fallback s e in
      passes-pass es v.2 (count v.0 n) ∙ passes-count v.0 n
