-- ===== src/Errors/Display.antt =====
-- src/error.rs: `Display` for the errors.
use fanotify_fid.Base.{
  ℕ, ◌≡◌, ap, sym, ◌∙◌, none, some, ◌++◌, drop, get_elem?, arith, ◌==◌, if◌then◌else◌,
}
use fanotify_fid.Consts.{fanotify_metadata_version}
use fanotify_fid.Errors.{FanotifyError, init, mark, read, write, unknown_event_version}
use fanotify_fid.Errors.Describe.{describe_init, describe_mark, describe_read, describe_write}
use fanotify_fid.Texts.{Text, codes, decimal}
use fanotify_fid.Texts.Decimal.{value, until, value-until-decimal}

unfoldable pub display : FanotifyError → Text
display (init code) =
    codes "fanotify_init failed (errno=" ++ (decimal code ++ (codes "): " ++ describe_init code))
display (mark code) =
    codes "fanotify_mark failed (errno=" ++ (decimal code ++ (codes "): " ++ describe_mark code))
display (read code) =
    codes "fanotify read failed (errno=" ++ (decimal code ++ (codes "): " ++ describe_read code))
display (write code) =
    codes "fanotify response write failed (errno="
    ++ (decimal code ++ (codes "): " ++ describe_write code))
display (unknown_event_version vers) =
    codes "buffer is not a fanotify event: metadata.vers = "
    ++ (decimal vers
        ++ (codes ", expected "
            ++ (decimal fanotify_metadata_version
                ++ codes ".  This usually means the descriptor is not a fanotify group")))

-- The error that a message is about: its twelfth character tells the variants apart.
unfoldable pub twelfth : Text → ℕ
twelfth text = elim (get_elem? text 11) [ none ↦ 0 | some c ↦ c ]

unfoldable pub read_back : Text → FanotifyError
read_back text =
    if twelfth text == b'i'
    then init (value 0 (until 41 (drop 28 text)))
    else if twelfth text == b'r'
    then mark (value 0 (until 41 (drop 28 text)))
    else if twelfth text == b'a'
    then read (value 0 (until 41 (drop 28 text)))
    else if twelfth text == b's'
    then write (value 0 (until 41 (drop 38 text)))
    else unknown_event_version (value 0 (until 44 (drop 48 text)))

read_back-display : (e : FanotifyError) → read_back (display e) ≡ e
unfolding read_back display twelfth
read_back-display (init code) = ap init (value-until-decimal 41 code _ (omega arith))
read_back-display (mark code) = ap mark (value-until-decimal 41 code _ (omega arith))
read_back-display (read code) = ap read (value-until-decimal 41 code _ (omega arith))
read_back-display (write code) = ap write (value-until-decimal 41 code _ (omega arith))
read_back-display (unknown_event_version vers) =
    ap unknown_event_version (value-until-decimal 44 vers _ (omega arith))

-- Two errors with the same message are the same error: the same system call failed, or none did,
-- with the same errno or the same version.
pub display_inj : (a b : FanotifyError) → display a ≡ display b → a ≡ b
display_inj a b e = sym (read_back-display a) ∙ ap read_back e ∙ read_back-display b
