-- ===== src/Resolve/Batch.antt =====
-- src/resolve.rs: `resolve_events`, one pass over a batch.
use fanotify_fid.Base.{ℕ, ℤ, ◌+◌, List, [], ◌∷◌}
use fanotify_fid.Bytes.{Bytes}
use fanotify_fid.Fid.Event.{FilePath, FidEvent}
use fanotify_fid.Handle.Open.{IoResult}
use fanotify_fid.Resolve.Resolver.{
  PathResolver, EventResolution, resolved, already_resolved, nothing_to_resolve, unresolvable,
  resolve_event,
}

pub record Resolution : Type 0 where
  pub resolved : ℕ
  pub already_resolved : ℕ
  pub unresolved : ℕ
  pub passes : ℕ

unfoldable pub count : EventResolution → Resolution → Resolution
count resolved n = record n { resolved = n.resolved + 1 }
count already_resolved n = record n { already_resolved = n.already_resolved + 1 }
count nothing_to_resolve n = record n { unresolved = n.unresolved + 1 }
count unresolvable n = record n { unresolved = n.unresolved + 1 }

module _ (sys_open : ℤ → Bytes → IoResult ℤ) (read_link : ℤ → IoResult FilePath)
    (r : PathResolver) where
  -- The `for` loop, with the counts so far.
  unfoldable pub resolve_each : List FidEvent → Resolution → List FidEvent × Resolution
  resolve_each [] n = ([], n)
  resolve_each (e ∷ es) n =
      let first = resolve_event sys_open read_link r e in
      let rest = resolve_each es (count first.0 n) in (first.1 ∷ rest.0, rest.1)

  unfoldable pub resolve_events : List FidEvent → List FidEvent × Resolution
  resolve_events es =
      resolve_each es (record { resolved = 0; already_resolved = 0; unresolved = 0; passes = 1 })
