-- ===== src/Response/Append.antt =====
-- A `WireBuffer` is used as a `Vec` would be: extending it appends to its bytes.
use fanotify_fid.Base.{
  ℕ, ◌+◌, ◌≤◌, ◌≡◌, refl, sym, ap, ◌∙◌, inl, inr, none, some, true, [], ◌++◌, arith, leb, ltb,
  ltb→lt, lt→ltb, leb→le, Bool-cases, Option-cases, length, take, drop, length-append, length-take,
  length-drop, take-append_left, is_some, ◌||◌, not,
}
use mathlib.Core.List.{append_assoc}
use fanotify_fid.Bytes.{Bytes}
use fanotify_fid.Response.Buffer.{
  WireBuffer, inline_size, copy_at, new, as_slice, extend_inline, extend_from_slice,
}

-- The array keeps its size and holds the bytes that were put in it.
pub record IsWireBuffer (b : WireBuffer) : Type 0 where
  pub size : length b.inline ≡ inline_size
  pub room : b.len ≤ inline_size

pub new-IsWireBuffer : IsWireBuffer new
unfolding new
new-IsWireBuffer = record { size = refl; room = omega arith }

pub as_slice-new : as_slice new ≡ []
unfolding as_slice new
as_slice-new = refl

module _ (at : ℕ) (bytes out : Bytes) (fits : at + length bytes ≤ length out) where
  pub length-copy_at : length (copy_at at bytes out) ≡ length out
  unfolding copy_at
  length-copy_at = omega (
    arith,
    fits,
    length-append (take at out) (bytes ++ drop (at + length bytes) out),
    length-append bytes (drop (at + length bytes) out),
    length-take at out,
    length-drop (at + length bytes) out,
  )

  pub take-copy_at : take (at + length bytes) (copy_at at bytes out) ≡ take at out ++ bytes
  unfolding copy_at
  take-copy_at =
      ap (take (at + length bytes)) (
        let e : take at out ++ (bytes ++ drop (at + length bytes) out)
            ≡ (take at out ++ bytes) ++ drop (at + length bytes) out =
          simp (append_assoc) in
        e)
      ∙ take-append_left (at + length bytes) (take at out ++ bytes) _
          (omega (arith, fits, length-append (take at out) bytes, length-take at out))

module _ (b : WireBuffer) (bytes : Bytes) (h : IsWireBuffer b) where
  extend_inline-IsWireBuffer : IsWireBuffer (extend_inline b bytes)
  unfolding extend_inline
  extend_inline-IsWireBuffer = elim (Bool-cases (leb (b.len + length bytes) inline_size)) [
    | inl fits ↦ rw fits (record {
      size = length-copy_at b.len bytes b.inline (omega (arith, leb→le _ _ fits, h.size)) ∙ h.size;
      room = leb→le _ _ fits;
    })
    | inr full ↦ rw full (record { size = h.size; room = h.room })
  ]

  pub extend_from_slice-IsWireBuffer : IsWireBuffer (extend_from_slice b bytes)
  unfolding extend_from_slice
  extend_from_slice-IsWireBuffer =
      elim b.spilled
        as (λ s. IsWireBuffer (elim s [
          | some vec ↦ record b { spilled = some (vec ++ bytes) }
          | none ↦ extend_inline b bytes
        ])) [
          | some vec ↦ record { size = h.size; room = h.room }
          | none ↦ extend_inline-IsWireBuffer
        ]

  pub as_slice-extend_from_slice : as_slice (extend_from_slice b bytes) ≡ as_slice b ++ bytes
  unfolding as_slice extend_from_slice extend_inline
  as_slice-extend_from_slice = elim (Option-cases b.spilled) [
    | inl inside ↦ elim (Bool-cases (leb (b.len + length bytes) inline_size)) [
      | inl fits ↦
          rw (inside, fits)
            (take-copy_at b.len bytes b.inline (omega (arith, leb→le _ _ fits, h.size)))
      | inr full ↦ rw (inside, full) refl
    ]
    | inr (vec, outside) ↦ rw (outside) refl
  ]

  -- It spills when its bytes are more than the array has room for, and stays spilled.
  pub spilled-extend_from_slice :
      is_some (extend_from_slice b bytes).spilled
      ≡ (is_some b.spilled || not (leb (b.len + length bytes) inline_size))
  unfolding extend_from_slice extend_inline
  spilled-extend_from_slice = elim (Option-cases b.spilled) [
    | inl inside ↦ elim (Bool-cases (leb (b.len + length bytes) inline_size)) [
      | inl fits ↦ rw (inside, fits) refl
      | inr full ↦ rw (inside, full) refl
    ]
    | inr (vec, outside) ↦ rw (outside) refl
  ]

-- A buffer that holds `bytes`: in its array as long as they fit there.
pub record Built (b : WireBuffer) (bytes : Bytes) : Type 0 where
  pub form : IsWireBuffer b
  pub slice : as_slice b ≡ bytes
  pub spills : is_some b.spilled ≡ ltb inline_size (length bytes)

pub Built-new : Built new []
unfolding new as_slice
Built-new = record { form = new-IsWireBuffer; slice = refl; spills = refl }

len-Built :
    (b : WireBuffer) (bytes : Bytes) → Built b bytes → b.spilled ≡ none → b.len ≡ length bytes
unfolding as_slice
len-Built b bytes h inside = omega (
  arith,
  length-take b.len b.inline,
  h.form.size,
  h.form.room,
  ap length (let e : take b.len b.inline ≡ as_slice b = rw inside refl in e ∙ h.slice),
)

pub Built-extend_from_slice :
    (b : WireBuffer) (xs ys : Bytes) → Built b xs → Built (extend_from_slice b ys) (xs ++ ys)
Built-extend_from_slice b xs ys h = record {
  form = extend_from_slice-IsWireBuffer b ys h.form;
  slice = as_slice-extend_from_slice b ys h.form ∙ ap (λ t. t ++ ys) h.slice;
  spills = spilled-extend_from_slice b ys h.form ∙ elim (Option-cases b.spilled) [
    | inl inside ↦ rw (inside, len-Built b xs h inside, length-append xs ys) (ground arith)
    | inr (vec, outside) ↦
        let more : ltb inline_size (length xs) ≡ true = sym h.spills ∙ ap is_some outside in
        rw
          (
            outside,
            length-append xs ys,
            lt→ltb inline_size (length xs + length ys)
                (omega (arith, ltb→lt inline_size (length xs) more)),
          )
          refl
  ];
}
