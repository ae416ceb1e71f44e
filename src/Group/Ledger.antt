-- ===== src/Group/Ledger.antt =====
-- The descriptors of the process over the life of an `FdEventReader`: the kernel installs one for
-- each event that it hands over, which the reader owns until its next read, and one for each pidfd
-- in the events' records, which the reader does not look at. The rest of the program opens and
-- closes descriptors of its own meanwhile.
use fanotify_fid.Base.{
  ℕ, ℤ, is_negative, ◌≡◌, Bool, true, false, not, ◌&&◌, ◌||◌, some, List, [], ◌∷◌, ◌++◌, map, All,
  ◌==◌, if◌then◌else◌,
}
use fanotify_fid.Bytes.{Endian}
use fanotify_fid.Errors.{Result}
use fanotify_fid.Errors.Errno
use fanotify_fid.Parse.{ParseReport}
use fanotify_fid.Owners.{contains, numbers, Table, opened, closed}
use fanotify_fid.Fid.Wire.{
  Info, fid, dfid, dfid_name, old_dfid_name, new_dfid_name, pidfd, error, range, mnt, other,
}
use fanotify_fid.Fid.Wire.Event.{Notice, IsNotice}
use fanotify_fid.Fid.Wire.RoundTrip.{wire_events}
use fanotify_fid.Fd.Adopt.{owned_fds}
use fanotify_fid.Sys.Read.{ReadAnswer, got, failed}
use fanotify_fid.Group.Readers.{FdEventReader, new_fd_event_reader, fd_read_reported}

-- The events of a batch are dropped one after the other.
abbrev pub close_each : List ℤ → Table → Table
close_each [] table = table
close_each (n ∷ ns) table = close_each ns (closed n table)

abbrev pub owned : FdEventReader → List ℤ
owned r = numbers (owned_fds r.events)

-- What the kernel does on a read(2): it hands over events, or fails.
pub data Delivery : Type 0 where
  delivers : List Notice → Delivery
  refuses : ℕ → Delivery

abbrev pub carried : List Notice → ℤ → Bool
carried ns n = not (is_negative n) && contains n (map (λ (x : Notice). x.fd) ns)

-- The numbers that a read's calls of read(2) install: the last one's, as the ones before were
-- interrupted. A negative number stands for no descriptor.
unfoldable pub installed : List Delivery → ℤ → Bool
installed [] = λ n. false
installed (delivers ns ∷ ds) = carried ns
installed (refuses e ∷ ds) =
    let rest = installed ds in if e == Errno.eintr then rest else (λ n. false)

-- The pidfds that records carry.
abbrev pub pidfds_of : List Info → List ℤ
pidfds_of [] = []
pidfds_of (pidfd n ∷ is) = n ∷ pidfds_of is
pidfds_of (fid f h ∷ is) = pidfds_of is
pidfds_of (dfid f h ∷ is) = pidfds_of is
pidfds_of (dfid_name f h name padding ∷ is) = pidfds_of is
pidfds_of (old_dfid_name f h name padding ∷ is) = pidfds_of is
pidfds_of (new_dfid_name f h name padding ∷ is) = pidfds_of is
pidfds_of (error e count ∷ is) = pidfds_of is
pidfds_of (range offset count ∷ is) = pidfds_of is
pidfds_of (mnt id ∷ is) = pidfds_of is
pidfds_of (other t bs ∷ is) = pidfds_of is

abbrev pub event_pidfds : List Notice → List ℤ
event_pidfds [] = []
event_pidfds (n ∷ ns) = pidfds_of n.infos ++ event_pidfds ns

-- The pidfds that a read's calls install, in the same way. Nobody adopts them.
unfoldable pub unadopted : List Delivery → ℤ → Bool
unadopted [] = λ n. false
unadopted (delivers ns ∷ ds) = λ n. not (is_negative n) && contains n (event_pidfds ns)
unadopted (refuses e ∷ ds) =
    let rest = unadopted ds in if e == Errno.eintr then rest else (λ n. false)

module _ (en : Endian) where
  abbrev pub answer : Delivery → ReadAnswer
  answer (delivers ns) = got (wire_events en ns)
  answer (refuses e) = failed e

  abbrev pub IsDelivery : Delivery → Type 0
  IsDelivery (delivers ns) = All (IsNotice en) ns
  IsDelivery (refuses e) = Unit

  -- `Lives r outside table`: a reader has come to be `r`, and `table` is what the process holds open.
  -- Of that, `outside` is what the rest of the program has opened, and the pidfds of the records
  -- that were read: both stay until the program closes them.
  pub data Lives : FdEventReader → Table → Table → Type 0 where
    made :
        {r : FdEventReader} {outside : Table} (capacity : ℕ)
        → r ≡ new_fd_event_reader capacity
        → Lives r outside outside
    elsewhere_opens :
        {r : FdEventReader} {outside outside' table table' : Table} (n : ℤ)
        → Lives r outside table
        → table n ≡ false
        → outside' ≡ opened n outside
        → table' ≡ opened n table
        → Lives r outside' table'
    elsewhere_closes :
        {r : FdEventReader} {outside outside' table table' : Table} (n : ℤ)
        → Lives r outside table
        → outside n ≡ true
        → outside' ≡ closed n outside
        → table' ≡ closed n table
        → Lives r outside' table'
    reads :
        {r s : FdEventReader} {outside outside' table table' : Table} (ds : List Delivery)
        (rest : List ReadAnswer) (result : Result ParseReport)
        → Lives r outside table
        → All IsDelivery ds
        → ((n : ℤ)
            → (installed ds n || unadopted ds n) ≡ true
            → close_each (owned r) table n ≡ false)
        → ((n : ℤ) → installed ds n ≡ true → unadopted ds n ≡ false)
        → fd_read_reported en r (map answer ds) ≡ some (result, s, rest)
        → ((n : ℤ) → outside' n ≡ (unadopted ds n || outside n))
        → ((n : ℤ) → table' n ≡ (installed ds n || unadopted ds n || close_each (owned r) table n))
        → Lives s outside' table'
