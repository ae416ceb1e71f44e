-- ===== src/Group/Wait.antt =====
-- src/group.rs: `wait_readable`, over poll(2).
use fanotify_fid.Base.{
  ℕ, zero, suc, ℤ, pos, negsuc, ◌+◌, ◌-◌, ◌*◌, ◌/◌, ◌^◌, ◌≤◌, ◌<◌, ◌≡◌, refl, ap, min, ◌⊎◌, inl,
  inr, Bool, true, false, Option, none, some, is_negative, ltb, if◌then◌else◌, Bool-cases, ltb→lt,
  arith,
}
use fanotify_fid.Errors.{Result, ok, err, read}
use fanotify_fid.Sys.Calls.{Returned}

-- `std::time::Duration`: whole seconds, and nanoseconds below one.
pub record Duration : Type 0 where
  pub secs : ℕ
  pub nanos : ℕ

-- `Duration::as_millis`
unfoldable pub as_millis : Duration → ℕ
as_millis d = d.secs * 1000 + d.nanos / 1_000_000

unfoldable pub timeout_ms : Option Duration → ℤ
timeout_ms none = negsuc 0
timeout_ms (some d) = pos (min (as_millis d) (2 ^ 31 - 1))

unfoldable pub is_positive : ℤ → Bool
is_positive (pos n) = ltb 0 n
is_positive (negsuc n) = false

unfoldable pub wait_readable {ℓ} :
    {K : Type ℓ} → (K → ℤ → K × Returned) → K → Option Duration → K × Result Bool
wait_readable sys_poll k timeout =
    let ready = sys_poll k (timeout_ms timeout) in
    (
      ready.0,
      if is_negative ready.1.value
          then err (read ready.1.errno)
          else ok (is_positive ready.1.value),
    )

abbrev pub nanoseconds : Duration → ℕ
nanoseconds d = d.secs * 1_000_000_000 + d.nanos

-- What poll(2)'s answer says: an error, no event in time, or an event.
unfoldable pub polled : ℤ → ℕ → Result Bool
polled (negsuc n) errno = err (read errno)
polled (pos zero) errno = ok false
polled (pos (suc n)) errno = ok true

unfoldable pub after_poll {ℓ} : {K : Type ℓ} → K × Returned → K × Result Bool
after_poll (k, answer) = (k, polled answer.value answer.errno)

abbrev result_of : ℤ → ℕ → Result Bool
result_of value errno = if is_negative value then err (read errno) else ok (is_positive value)

result_of-polled : (value : ℤ) (errno : ℕ) → result_of value errno ≡ polled value errno
unfolding polled is_positive
result_of-polled (negsuc n) errno = refl
result_of-polled (pos zero) errno = refl
result_of-polled (pos (suc n)) errno = ap ok (ground arith)

after_poll_lem {ℓ} :
    {K : Type ℓ} (answer : K × Returned)
    → (answer.0, result_of answer.1.value answer.1.errno) ≡ after_poll answer
unfolding after_poll
after_poll_lem (k, answer) = ap (λ r. (k, r)) (result_of-polled answer.value answer.errno)

wait_readable_lem {ℓ} :
    {K : Type ℓ} (sys_poll : K → ℤ → K × Returned) (k : K) (timeout : Option Duration) (t : ℤ)
    → timeout_ms timeout ≡ t
    → wait_readable sys_poll k timeout ≡ after_poll (sys_poll k t)
unfolding wait_readable
wait_readable_lem sys_poll k timeout t e = rw e (after_poll_lem (sys_poll k t))

-- With no timeout poll(2) is called with -1. With one it is called with a number of milliseconds
-- that an `i32` holds, which are no longer than the timeout, and shorter than it by less than one
-- unless they are the most that can be asked for. Its answer is an error with the errno if it is
-- negative, that there is no event if it is 0, and that there is one if it is positive.
pub wait_readable-after_poll {ℓ} :
    {K : Type ℓ} (sys_poll : K → ℤ → K × Returned) (k : K) (d : Duration)
    → (wait_readable sys_poll k none ≡ after_poll (sys_poll k (negsuc 0)))
      × (ms : ℕ) × (wait_readable sys_poll k (some d) ≡ after_poll (sys_poll k (pos ms)))
      × (ms < 2 ^ 31)
      × (ms * 1_000_000 ≤ nanoseconds d)
      × ((nanoseconds d < (ms + 1) * 1_000_000) ⊎ (ms ≡ 2 ^ 31 - 1))
unfolding timeout_ms
wait_readable-after_poll sys_poll k d = (
  wait_readable_lem sys_poll k none (negsuc 0) refl,
  min (as_millis d) (2 ^ 31 - 1),
  wait_readable_lem sys_poll k (some d) _ refl,
  omega arith,
  unfold as_millis in omega arith,
  elim (Bool-cases (ltb (2 ^ 31 - 1) (as_millis d))) [
    | inl longer ↦ inr (omega (arith, ltb→lt _ _ longer))
    | inr shorter ↦ inl (unfold as_millis in ground (arith, shorter))
  ],
)
