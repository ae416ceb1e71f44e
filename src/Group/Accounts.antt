-- ===== src/Group/Accounts.antt =====
-- What an `FdEventReader` closes over its life: what the kernel opened for it, each once.
use fanotify_fid.Base.{
  ℕ, zero, suc, ℤ, pos, eq_ℤ, eq_ℤ_iff, is_negative, ◌≡◌, refl, sym, subst, ap, ◌∙◌, Bool,
  Bool-cases, inl, inr, true, false, not, ◌&&◌, ◌||◌, none, some, List, [], ◌∷◌, map, All,
  replicate, ◌==◌, length, arith,
}
use mathlib.Core.List.{append-nil}
use fanotify_fid.Bytes.{Bytes, Endian}
use fanotify_fid.Errors.Errno
use fanotify_fid.Parse.{ParseReport}
use fanotify_fid.Owners.{contains, numbers, Distinct, Table, opened, closed}
use fanotify_fid.Fid.Wire.Event.{Notice, IsNotice}
use fanotify_fid.Fid.Wire.RoundTrip.{wire_events}
use fanotify_fid.Fd.Event.{new}
use fanotify_fid.Fd.Adopt.{adopt_fds, owned_fds, reported_fds, Unowned, adopt_fds-owners}
use fanotify_fid.Fd.RoundTrip.{fd_meaning, parse_fd_events-wire_events}
use fanotify_fid.Sys.Read.{write_front, read_into}
use fanotify_fid.Sys.Retry.{take-write_front}
use fanotify_fid.Group.Stateless.{Outcome, adopt_fd_batch}
use fanotify_fid.Group.Readers.{
  FdEventReader, new_fd_event_reader, buf_bytes, most_events, clear_reader, finish_reader,
  read_cleared, fill_fd_events, fd_read_reported,
}
use fanotify_fid.Group.Same.{truncate_all}
use fanotify_fid.Group.Ledger.{
  close_each, owned, Delivery, delivers, refuses, installed, unadopted, answer, IsDelivery, Lives,
  made, elsewhere_opens, elsewhere_closes, reads,
}

-- The process holds open what others hold or nobody adopted, and what the reader owns, which are
-- apart.
pub record Accounts (r : FdEventReader) (outside table : Table) : Type 0 where
  pub once : Distinct (owned r)
  pub apart : (n : ℤ) → contains n (owned r) ≡ true → outside n ≡ false
  pub all_held : (n : ℤ) → table n ≡ (outside n || contains n (owned r))

close_each-contains :
    (ns : List ℤ) (table : Table) (n : ℤ) → close_each ns table n ≡ (not (contains n ns) && table n)
unfolding contains
close_each-contains [] table n = ground arith
close_each-contains (m ∷ ns) table n = ground (arith, close_each-contains ns (closed m table) n)

closes_its_own :
    {r : FdEventReader} {outside table : Table} (n : ℤ)
    → Accounts r outside table
    → close_each (owned r) table n ≡ outside n
closes_its_own {r} {outside} {table} n a =
    ground (arith, close_each-contains (owned r) table n, a.apart n, a.all_held n)

numbers-new_slots : (k : ℕ) → numbers (owned_fds (replicate k (new 0 none (pos 0)))) ≡ []
unfolding new
numbers-new_slots zero = refl
numbers-new_slots (suc k) = numbers-new_slots k

pub owned-new_fd_event_reader : (capacity : ℕ) → owned (new_fd_event_reader capacity) ≡ []
unfolding new_fd_event_reader
owned-new_fd_event_reader capacity = numbers-new_slots (most_events (buf_bytes capacity))

fd_meaning-Unowned : (ns : List Notice) → Unowned (map fd_meaning ns)
unfolding fd_meaning
fd_meaning-Unowned [] = tt
fd_meaning-Unowned (n ∷ ns) = (refl, fd_meaning-Unowned ns)

reported-fd_meaning :
    (ns : List Notice) → numbers (reported_fds (map fd_meaning ns)) ≡ map (λ (x : Notice). x.fd) ns
unfolding fd_meaning
reported-fd_meaning [] = refl
reported-fd_meaning (n ∷ ns) = ap (λ ms. n.fd ∷ ms) (reported-fd_meaning ns)

new-Accounts : {r : FdEventReader} {outside : Table} → owned r ≡ [] → Accounts r outside outside
unfolding contains
new-Accounts {r} {outside} nothing = record {
  once = rw nothing tt;
  apart = λ n h. let none_owned = ap (contains n) nothing in cc;
  all_held = λ n. ground (arith, ap (contains n) nothing);
}

opens-Accounts :
    {r : FdEventReader} {outside table : Table} (n : ℤ)
    → table n ≡ false
    → Accounts r outside table
    → Accounts r (opened n outside) (opened n table)
opens-Accounts {r} {outside} {table} n unused a = record {
  once = a.once;
  apart = λ m h. elim (Bool-cases (eq_ℤ n m)) [
    | inl e ↦
        let same : table n ≡ table m = ap table ((eq_ℤ_iff n m).0 e) in
        ground (arith, a.all_held m, same)
    | inr e ↦ rw e (a.apart m h)
  ];
  all_held = λ m. ground (arith, a.all_held m);
}

closes-Accounts :
    {r : FdEventReader} {outside table : Table} (n : ℤ)
    → outside n ≡ true
    → Accounts r outside table
    → Accounts r (closed n outside) (closed n table)
closes-Accounts {r} {outside} {table} n theirs a = record {
  once = a.once;
  apart = λ m h. ground (arith, a.apart m h);
  all_held = λ m. elim (Bool-cases (eq_ℤ n m)) [
    | inl e ↦
        let same : outside n ≡ outside m = ap outside ((eq_ℤ_iff n m).0 e) in
        ground (arith, a.apart m, same)
    | inr e ↦ ground (arith, a.all_held m)
  ];
}

module _ (en : Endian) where
  fill_fd_events-wire_events :
      (ns : List Notice) (buf : Bytes)
      → All (IsNotice en) ns
      → (fill_fd_events en [] (length (wire_events en ns)) (write_front (wire_events en ns) buf)).0
        ≡ adopt_fds (map fd_meaning ns) []
  unfolding fill_fd_events adopt_fd_batch
  fill_fd_events-wire_events ns buf v =
      rw (take-write_front (wire_events en ns) buf, truncate_all en (wire_events en ns))
        (ap (λ batch. adopt_fds batch.0 [])
          (rw append-nil at (parse_fd_events-wire_events en ns [] [] v (omega arith))))

  -- What a reader owns after a read.
  abbrev OwnsInstalled : (ℤ → Bool) → Outcome ParseReport FdEventReader → Type 0
  OwnsInstalled new_ones none = Unit
  OwnsInstalled new_ones (some (result, s, rest)) =
      Distinct (owned s) × ((n : ℤ) → contains n (owned s) ≡ new_ones n)

  finish_reader-OwnsInstalled :
      (ds : List Delivery) (buf : Bytes)
      → All (IsDelivery en) ds
      → OwnsInstalled
          (installed ds)
          (finish_reader (fill_fd_events en) [] (read_into buf (map (answer en) ds)))
  unfolding finish_reader read_into installed
  finish_reader-OwnsInstalled [] buf v = tt
  finish_reader-OwnsInstalled (delivers ns ∷ ds) buf v =
      let owners = adopt_fds-owners (map fd_meaning ns) (fd_meaning-Unowned ns) in
      rw (fill_fd_events-wire_events ns buf v.0) (
        owners.0,
        λ n. owners.1 n ∙ ap (λ ms. not (is_negative n) && contains n ms) (reported-fd_meaning ns),
      )
  finish_reader-OwnsInstalled (refuses e ∷ ds) buf v = elim (Bool-cases (e == Errno.eintr)) [
    | inl signal ↦ rw signal (finish_reader-OwnsInstalled ds buf v.1)
    | inr refused ↦ rw refused (tt, λ n. unfold contains in refl)
  ]

  reads-Accounts :
      {r s : FdEventReader} {outside outside' table table' : Table} (ds : List Delivery)
      → Accounts r outside table
      → ((n : ℤ) → (installed ds n || unadopted ds n) ≡ true → close_each (owned r) table n ≡ false)
      → ((n : ℤ) → installed ds n ≡ true → unadopted ds n ≡ false)
      → ((n : ℤ) → outside' n ≡ (unadopted ds n || outside n))
      → ((n : ℤ) → table' n ≡ (installed ds n || unadopted ds n || close_each (owned r) table n))
      → Distinct (owned s)
      → ((n : ℤ) → contains n (owned s) ≡ installed ds n)
      → Accounts s outside' table'
  reads-Accounts {r} {s} {outside} {outside'} {table} ds a fresh two more now once same = record {
    once = once;
    apart = λ n h.
        let new : installed ds n ≡ true = sym (same n) ∙ h in
        let closed_now : close_each (owned r) table n ≡ false = fresh n (ground (arith, new)) in
        ground (arith, more n, two n new, closes_its_own n a, closed_now);
    all_held = λ n. ground (arith, now n, more n, same n, closes_its_own n a);
  }

  accounts :
      {r : FdEventReader} {outside table : Table}
      → Lives en r outside table
      → Accounts r outside table
  accounts (made {r} capacity e) = new-Accounts (ap owned e ∙ owned-new_fd_event_reader capacity)
  accounts (elsewhere_opens {r} n before unused o t) =
      rw (o, t) (opens-Accounts n unused (accounts before))
  accounts (elsewhere_closes {r} n before theirs o t) =
      rw (o, t) (closes-Accounts n theirs (accounts before))
  accounts (reads {r} {s} ds rest result before v fresh two e more now) =
      let a = accounts before in
      let left = subst (OwnsInstalled (installed ds)) e (
        unfold fd_read_reported read_cleared clear_reader in
        finish_reader-OwnsInstalled ds r.buf v) in
      reads-Accounts ds a fresh two more now left.0 left.1

  -- The kernel installs descriptors under numbers that are not open, a pidfd of a record under
  -- another than an event's. Whatever an `FdEventReader` has read of such a kernel, and whatever the
  -- rest of the program has opened and closed meanwhile: the reader owns no descriptor twice and
  -- none of the others, and what the process holds open is what the reader owns, what the program
  -- holds, and the pidfds of the records, which the reader does not adopt. So when the reader closes
  -- its events' descriptors, each is open; exactly the program's are left, and those pidfds.
  pub Lives-Accounts :
      {r : FdEventReader} {outside table : Table}
      → Lives en r outside table
      → Accounts r outside table × ((n : ℤ) → close_each (owned r) table n ≡ outside n)
  Lives-Accounts life = let a = accounts life in (a, λ n. closes_its_own n a)
