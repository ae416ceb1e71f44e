-- ===== src/Fid/Compare/Reported.antt =====
-- What is equal in events that compare as equal.
use fanotify_fid.Base.{eq_ℤ, eq_ℤ_iff, ==_iff, ◌≡◌, ◌↔◌, refl, ap, Bool, true, false, ◌&&◌, none}
use fanotify_fid.Handle.Key.{same_fsid, same_fsid_iff, same_bytes, same_bytes_iff}
use fanotify_fid.Fid.Event.{missing, pidfd_eq, FidEvent}
use fanotify_fid.Fid.Compare.{pair_eq, rename_side_eq, eq_ℕ, event_eq, path_components}
use fanotify_fid.Fid.Compare.Exact.{
  option_eq-Exact, list_eq-Exact, pair_eq-Exact, rename_side_eq-Exact, eq_ℕ-Exact, option_path_eq,
}

-- What the kernel reported, apart from the process; the path was attached later.
abbrev pub reported : FidEvent → FidEvent
reported e = record e { pidfd = missing; path = none }

both : (t u : Bool) → (t && u) ≡ true → (t ≡ true) × (u ≡ true)
both true u h = (refl, h)
both false u h = absurd (cc)

any_iff : (t : Bool) → (t ≡ true) ↔ (t ≡ true)
any_iff t = (λ h. h, λ h. h)

-- Pairs that nest to the left, as the conjunction does, with what proves both halves.
infixl 3 ◌⊗◌ ◌&◌ ◌⊓◌
abbrev ◌⊗◌ {ℓ κ} : Type ℓ → Type κ → Type (ℓ ⊔ κ)
P ⊗ Q = P × Q

◌&◌ {ℓ κ} : {P : Type ℓ} {Q : Type κ} → P → Q → P ⊗ Q
p & q = (p, q)

◌⊓◌ {ℓ κ} :
    {t u : Bool} {P : Type ℓ} {Q : Type κ}
    → (t ≡ true) ↔ P
    → (u ≡ true) ↔ Q
    → ((t && u) ≡ true) ↔ (P ⊗ Q)
◌⊓◌ {t = t} {u = u} p q =
    (λ h. (p.0 (both t u h).0, q.0 (both t u h).1), λ h. rw (p.1 h.0) (q.1 h.1))

abbrev Fields : FidEvent → FidEvent → Type 0
Fields a b =
    (a.mask ≡ b.mask)
    ⊗ (a.pid ≡ b.pid)
    ⊗ (a.fsid ≡ b.fsid)
    ⊗ (a.dfid_name_handle ≡ b.dfid_name_handle)
    ⊗ (a.dfid_name_name ≡ b.dfid_name_name)
    ⊗ (a.self_handle ≡ b.self_handle)
    ⊗ (pidfd_eq a.pidfd b.pidfd ≡ true)
    ⊗ (a.fd_error ≡ b.fd_error)
    ⊗ (a.fs_error ≡ b.fs_error)
    ⊗ (a.access_range ≡ b.access_range)
    ⊗ (a.mnt_id ≡ b.mnt_id)
    ⊗ (a.rename_source ≡ b.rename_source)
    ⊗ (a.rename_target ≡ b.rename_target)
    ⊗ (a.unknown_info_records ≡ b.unknown_info_records)
    ⊗ (path_components a.path ≡ path_components b.path)

event_eq-Fields : (a b : FidEvent) → (event_eq a b ≡ true) ↔ Fields a b
unfolding event_eq
event_eq-Fields a b =
    ==_iff a.mask b.mask
    ⊓ eq_ℤ_iff a.pid b.pid
    ⊓ option_eq-Exact same_fsid same_fsid_iff a.fsid b.fsid
    ⊓ option_eq-Exact same_bytes same_bytes_iff a.dfid_name_handle b.dfid_name_handle
    ⊓ option_eq-Exact same_bytes same_bytes_iff a.dfid_name_name b.dfid_name_name
    ⊓ option_eq-Exact same_bytes same_bytes_iff a.self_handle b.self_handle
    ⊓ any_iff (pidfd_eq a.pidfd b.pidfd)
    ⊓ option_eq-Exact eq_ℤ eq_ℤ_iff a.fd_error b.fd_error
    ⊓ option_eq-Exact (pair_eq eq_ℤ eq_ℕ) (pair_eq-Exact eq_ℤ eq_ℕ eq_ℤ_iff eq_ℕ-Exact) a.fs_error
        b.fs_error
    ⊓ option_eq-Exact (pair_eq eq_ℕ eq_ℕ) (pair_eq-Exact eq_ℕ eq_ℕ eq_ℕ-Exact eq_ℕ-Exact)
        a.access_range b.access_range
    ⊓ option_eq-Exact eq_ℕ eq_ℕ-Exact a.mnt_id b.mnt_id
    ⊓ option_eq-Exact rename_side_eq rename_side_eq-Exact a.rename_source b.rename_source
    ⊓ option_eq-Exact rename_side_eq rename_side_eq-Exact a.rename_target b.rename_target
    ⊓ list_eq-Exact (pair_eq eq_ℕ same_bytes)
        (pair_eq-Exact eq_ℕ same_bytes eq_ℕ-Exact same_bytes_iff) a.unknown_info_records
        b.unknown_info_records
    ⊓ option_path_eq a.path b.path

reported-Fields :
    (a b : FidEvent)
    → Fields a b
    → (reported a ≡ reported b)
      × (pidfd_eq a.pidfd b.pidfd ≡ true)
      × (path_components a.path ≡ path_components b.path)
reported-Fields a b h = (
  λ i. record {
    mask = h.0.0.0.0.0.0.0.0.0.0.0.0.0.0 i;
    pid = h.0.0.0.0.0.0.0.0.0.0.0.0.0.1 i;
    fsid = h.0.0.0.0.0.0.0.0.0.0.0.0.1 i;
    dfid_name_handle = h.0.0.0.0.0.0.0.0.0.0.0.1 i;
    dfid_name_name = h.0.0.0.0.0.0.0.0.0.0.1 i;
    self_handle = h.0.0.0.0.0.0.0.0.0.1 i;
    fd_error = h.0.0.0.0.0.0.0.1 i;
    fs_error = h.0.0.0.0.0.0.1 i;
    access_range = h.0.0.0.0.0.1 i;
    mnt_id = h.0.0.0.0.1 i;
    rename_source = h.0.0.0.1 i;
    rename_target = h.0.0.1 i;
    unknown_info_records = h.0.1 i;
    pidfd = missing;
    path = none;
  },
  h.0.0.0.0.0.0.0.0.1,
  h.1,
)

Fields-reported :
    (a b : FidEvent)
    → reported a ≡ reported b
    → pidfd_eq a.pidfd b.pidfd ≡ true
    → path_components a.path ≡ path_components b.path
    → Fields a b
Fields-reported a b p process path =
    ap (λ (e : FidEvent). e.mask) p
    & ap (λ (e : FidEvent). e.pid) p
    & ap (λ (e : FidEvent). e.fsid) p
    & ap (λ (e : FidEvent). e.dfid_name_handle) p
    & ap (λ (e : FidEvent). e.dfid_name_name) p
    & ap (λ (e : FidEvent). e.self_handle) p
    & process
    & ap (λ (e : FidEvent). e.fd_error) p
    & ap (λ (e : FidEvent). e.fs_error) p
    & ap (λ (e : FidEvent). e.access_range) p
    & ap (λ (e : FidEvent). e.mnt_id) p
    & ap (λ (e : FidEvent). e.rename_source) p
    & ap (λ (e : FidEvent). e.rename_target) p
    & ap (λ (e : FidEvent). e.unknown_info_records) p
    & path

-- Two events compare as equal exactly if all of their fields are equal, but for the pidfds, which
-- need only compare as equal, whichever of them owns a descriptor, and the paths, which need only
-- have the same components.
pub event_eq-reported :
    (a b : FidEvent)
    → (event_eq a b ≡ true) ↔ (
        (reported a ≡ reported b)
        × (pidfd_eq a.pidfd b.pidfd ≡ true)
        × (path_components a.path ≡ path_components b.path))
event_eq-reported a b =
    let fields = event_eq-Fields a b in
    (λ h. reported-Fields a b (fields.0 h), λ h. fields.1 (Fields-reported a b h.0 h.1 h.2))
