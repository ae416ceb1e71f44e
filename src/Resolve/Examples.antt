-- ===== src/Resolve/Examples.antt =====
-- The theorems on src/resolve.rs at concrete events.
use fanotify_fid.Base.{
  false, List, loop, ℤ, pos, ◌+◌, ◌==◌, ◌≡◌, refl, true, ◌&&◌, Option, none, some, [], ◌∷◌, arith,
  if◌then◌else◌,
}
use fanotify_fid.Bytes.{Bytes}
use fanotify_fid.Fid.Event.{Fsid, FilePath, FidEvent, missing, has_path, set_path, dfid_name_raw}
use fanotify_fid.Handle.Open.{
  wanted_filesystem, first_or, attempt, read_opened, open_by_handle_at, IoResult, bad_length,
  try_candidates, resolve_file_handle_in, done, failed, os,
}
use fanotify_fid.Handle.Cache.{HandleCache, path_of, with_path, remember, or_default}
use fanotify_fid.Handle.Mounts.{candidates}
use fanotify_fid.Handle.Store.{handle_cache}
use fanotify_fid.Paths.{push, is_absolute, ends_in_separator}
use fanotify_fid.Resolve.Memo.{
  resolve_handle_memo, remember_resolved, Visit, at, attach_memo_or, remember_if,
  memo_by_self_handle, memo_by_rename_source, memo_by_dfid_name, memo_on_known_filesystem,
  resolve_event_memo, memo_each,
}
use fanotify_fid.Resolve.Memo.Visit.{seen_event, resolve_event_memo-resolve_event}
use fanotify_fid.Resolve.Memo.Learns.{own_key, is_resolved, resolve_event_memo-learns}
use fanotify_fid.Resolve.Memo.Passes.{
  default, lacks_path, missing as lacking, one_pass, after_pass, memo_round, resolve_events_memo,
}
use fanotify_fid.Resolve.Memo.Settled.{IsOutcome, resolve_events_memo-IsOutcome}
use fanotify_fid.Resolve.Resolver.{
  PathResolver, ask_kernel, already_resolved, names_itself, bad_name, enter, map_done,
  resolve_handle, resolve_dir, resolve_event,
}
use fanotify_fid.Resolve.Lookups.{known}
use fanotify_fid.Resolve.Memo.Stable.{resolve_handle_memo-resolve_handle}
use fanotify_fid.Resolve.Batch.{count, resolve_events}
use fanotify_fid.Resolve.Directory.{EntryName, component, entered, resolve_dir-entered}
use fanotify_fid.Resolve.Outcome.{outcome_on, resolve_event-outcome}
use fanotify_fid.Resolve.Again.{second_pass, resolve_events-again}

abbrev no_open : ℤ → Bytes → IoResult ℤ
no_open mount handle = failed (os 1)

abbrev no_link : ℤ → IoResult FilePath
no_link fd = failed (os 2)

abbrev device : Fsid
device = (pos 1, pos 2)

-- The store knows the handle 1 ∷ [] alone, as the directory /a.
abbrev directories : Fsid → Bytes → Option FilePath
directories fsid (b ∷ []) = if b == 1 then some (47 ∷ 97 ∷ []) else none
directories fsid handle = none

abbrev resolver : PathResolver
resolver = record { store = directories; mounts = (pos 3, none) ∷ []; syscall_fallback = true }

abbrev created : FidEvent
created = record {
  mask = 256;
  pid = pos 1;
  fsid = some device;
  dfid_name_handle = some (1 ∷ []);
  dfid_name_name = some (98 ∷ []);
  self_handle = some (9 ∷ []);
  pidfd = missing;
  fd_error = none;
  fs_error = none;
  access_range = none;
  mnt_id = none;
  rename_source = none;
  rename_target = none;
  unknown_info_records = [];
  path = none;
}

-- /a/b
created_path :
    resolve_dir no_open no_link resolver device (1 ∷ []) (98 ∷ []) ≡ done (47 ∷ 97 ∷ 47 ∷ 98 ∷ [])
unfolding resolve_dir names_itself bad_name enter push is_absolute ends_in_separator
created_path = refl

-- The entry "b".
plain_b : EntryName (98 ∷ [])
plain_b =
    component ((λ e. absurd (omega (arith, e)), λ e. absurd (omega (arith, e))), tt) (λ e. cc)
      (λ e. absurd (cc)) (λ e. cc)

resolve_dir-entered_example :
    resolve_dir no_open no_link resolver device (1 ∷ []) (98 ∷ [])
    ≡ entered (98 ∷ []) plain_b (resolve_handle no_open no_link resolver device (1 ∷ []))
resolve_dir-entered_example =
    resolve_dir-entered no_open no_link resolver device (1 ∷ []) (98 ∷ []) plain_b

resolve_event-outcome_example : resolve_event no_open no_link resolver created ≡ (
    if has_path created
    then (already_resolved, created)
    else outcome_on no_open no_link resolver created (some device))
resolve_event-outcome_example = resolve_event-outcome no_open no_link resolver created

resolve_events-again_example :
    let first = resolve_events no_open no_link resolver (created ∷ created ∷ []) in
    (resolve_events no_open no_link resolver first.0 ≡ (first.0, second_pass first.1))
    × (first.1.resolved + first.1.already_resolved + first.1.unresolved ≡ 2)
resolve_events-again_example =
    resolve_events-again no_open no_link resolver (created ∷ created ∷ [])

-- A cache that knows the directory, and teaches it the file.
abbrev cache : HandleCache
cache = (device, (1 ∷ [], 47 ∷ 97 ∷ []) ∷ []) ∷ []

abbrev visit : Visit HandleCache
visit = resolve_event_memo handle_cache path_of no_open no_link [] true cache created

resolve_event_memo-resolve_event_example :
    seen_event visit
    ≡ resolve_event no_open no_link (at handle_cache path_of no_open no_link [] true cache) created
resolve_event_memo-resolve_event_example =
    resolve_event_memo-resolve_event handle_cache path_of no_open no_link [] true cache created

resolve_event_memo-learns_example : path_of visit.2 device (9 ∷ []) ≡ (
    if own_key (some device) (some (9 ∷ [])) device (9 ∷ []) && is_resolved visit.0
    then visit.1.path
    else path_of cache device (9 ∷ []))
resolve_event_memo-learns_example =
    resolve_event_memo-learns handle_cache path_of no_open no_link [] true cache device (9 ∷ [])
      created refl

-- An entry of the directory that the first event is about, which is resolved in the second pass.
abbrev nested : FidEvent
nested = record created { dfid_name_handle = some (9 ∷ []); self_handle = none }

abbrev batch : List FidEvent
batch = nested ∷ created ∷ []

two_passes :
    (resolve_events_memo handle_cache path_of no_open no_link [] true batch cache).2
    ≡ record { resolved = 1; already_resolved = 1; unresolved = 0; passes = 2 }
unfolding path_of with_path remember or_default resolve_events_memo memo_round after_pass one_pass
    default memo_each resolve_event_memo memo_on_known_filesystem memo_by_dfid_name
    memo_by_rename_source memo_by_self_handle attach_memo_or remember_if resolve_handle resolve_dir
    ask_kernel resolve_file_handle_in bad_length loop has_path set_path dfid_name_raw count
    names_itself bad_name enter map_done push is_absolute ends_in_separator try_candidates
    candidates lacking lacks_path
two_passes = refl

resolve_events_memo-IsOutcome_example :
    IsOutcome handle_cache path_of no_open no_link [] true 2
      (lacking batch)
      (resolve_events_memo handle_cache path_of no_open no_link [] true batch cache)
resolve_events_memo-IsOutcome_example =
    resolve_events_memo-IsOutcome handle_cache path_of no_open no_link [] true batch cache

-- A kernel that opens the handle as descriptor 9, which is a link to "/a".
abbrev now_open : ℤ → Bytes → IoResult ℤ
now_open mount handle = done (pos 9)

abbrev now_link : ℤ → IoResult FilePath
now_link fd = done (47 ∷ 97 ∷ [])

abbrev a_handle : Bytes
a_handle = 0 ∷ 0 ∷ 0 ∷ 0 ∷ 0 ∷ 0 ∷ 0 ∷ 0 ∷ []

abbrev learned : IoResult FilePath × HandleCache
learned =
    resolve_handle_memo handle_cache path_of now_open now_link ((pos 3, none) ∷ []) true [] device
      a_handle

first_answer : learned.0 ≡ done (47 ∷ 97 ∷ [])
unfolding resolve_handle_memo remember_resolved resolve_handle ask_kernel path_of candidates
    resolve_file_handle_in bad_length try_candidates with_path wanted_filesystem first_or attempt
    read_opened open_by_handle_at
first_answer = refl

-- Later the kernel refuses, and it may not be asked.
resolve_handle_memo-resolve_handle_example :
    let r = record resolver { store = path_of learned.1; syscall_fallback = false } in
    (resolve_handle no_open no_link r device a_handle ≡ done (47 ∷ 97 ∷ []))
    × (known r device a_handle ≡ some (47 ∷ 97 ∷ []))
resolve_handle_memo-resolve_handle_example =
    resolve_handle_memo-resolve_handle handle_cache path_of now_open now_link ((pos 3, none) ∷ [])
      true [] device a_handle (47 ∷ 97 ∷ []) no_open no_link
      (record resolver { syscall_fallback = false }) first_answer
