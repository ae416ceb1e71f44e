-- ===== src/Handle/Knowledge.antt =====
-- What a cache knows, as a value: caches up to their answers. The order in which a map keeps its
-- entries, and the history of the cache, are forgotten.
use mathlib.Core.Quot
use mathlib.Core.Quot.{Quot, Quot-set}
use fanotify_fid.Base.{ℕ, ◌≡◌, refl, ap, ◌∙◌, sym, ◌↔◌, Bool, Option, List, [], ◌∷◌}
use fanotify_fid.Bytes.{Bytes}
use fanotify_fid.Fid.Event.{Fsid, FilePath}
use fanotify_fid.Handle.Cache.{HandleCache, new, len, is_empty, filesystems, path_of}
use fanotify_fid.Handle.History.{Operation, apply_operation, run, learn, path_of-apply_operation}
use fanotify_fid.Handle.Levels.{
  IsHandleCache, apply_operation-IsHandleCache, run-IsHandleCache, new-IsHandleCache,
}
use fanotify_fid.Handle.Counts.{
  SameAnswers, len-SameAnswers, filesystems-SameAnswers, is_empty-SameAnswers,
}

-- A cache of the shape that every sequence of operations leaves.
pub record Kept : Type 0 where
  pub cache : HandleCache
  pub shape : IsHandleCache cache

abbrev Alike : Kept → Kept → Type 0
Alike a b = SameAnswers a.cache b.cache

abbrev pub Knowledge : Type 0
Knowledge = Quot Alike

abbrev pub knowledge : Kept → Knowledge
knowledge = Quot.mk

unfoldable pub answer : Fsid → Bytes → Knowledge → Option FilePath
answer g k = Quot.lift (hlevel) (λ a. path_of a.cache g k) λ a b h. h g k

unfoldable pub handles : Knowledge → ℕ
handles = Quot.lift (hlevel) (λ a. len a.cache) λ a b h. len-SameAnswers a.shape b.shape h

unfoldable pub known_filesystems : Knowledge → ℕ
known_filesystems =
    Quot.lift (hlevel) (λ a. filesystems a.cache) λ a b h. filesystems-SameAnswers a.shape b.shape h

unfoldable pub nothing_known : Knowledge → Bool
nothing_known =
    Quot.lift (hlevel) (λ a. is_empty a.cache) λ a b h. is_empty-SameAnswers a.shape b.shape h

pub apply_operation-SameAnswers :
    (o : Operation) (c d : HandleCache)
    → SameAnswers c d
    → SameAnswers (apply_operation o c) (apply_operation o d)
apply_operation-SameAnswers o c d h g k =
    path_of-apply_operation o c g k
    ∙ ap (λ known. learn o known g k) (λ i. λ f. λ j. h f j i)
    ∙ sym (path_of-apply_operation o d g k)

abbrev pub operated : Operation → Kept → Kept
operated o a = record {
  cache = apply_operation o a.cache;
  shape = apply_operation-IsHandleCache a.cache a.shape o;
}

-- An operation on what is known.
unfoldable pub operate : Operation → Knowledge → Knowledge
operate o =
    Quot.lift Quot-set (λ a. knowledge (operated o a))
      λ a b h. Quot.sound (apply_operation-SameAnswers o a.cache b.cache h)

-- A cache after some operations.
abbrev pub reached : List Operation → Kept
reached os = record { cache = run os new; shape = run-IsHandleCache os new new-IsHandleCache }

-- Two caches are the same knowledge exactly if they answer every handle alike.
pub knowledge_exact : (a b : Kept) → (knowledge a ≡ knowledge b) ↔ SameAnswers a.cache b.cache
unfolding answer
knowledge_exact a b = (λ e g k. ap (answer g k) e, λ h. Quot.sound h)

-- Some more operations.
abbrev operated_each : List Operation → Kept → Kept
operated_each [] a = a
operated_each (o ∷ os) a = operated_each os (operated o a)

cache-operated_each : (os : List Operation) (a : Kept) → (operated_each os a).cache ≡ run os a.cache
unfolding run
cache-operated_each [] a = refl
cache-operated_each (o ∷ os) a = cache-operated_each os (operated o a)

knowledge-operated_each :
    (qs : List Operation) (a b : Kept)
    → knowledge a ≡ knowledge b
    → knowledge (operated_each qs a) ≡ knowledge (operated_each qs b)
unfolding operate
knowledge-operated_each [] a b e = e
knowledge-operated_each (q ∷ qs) a b e =
    knowledge-operated_each qs (operated q a) (operated q b) (ap (operate q) e)

-- Whatever two histories of operations have led to one knowledge, no further operations tell the
-- two caches apart: they answer every handle alike, count as many handles and as many filesystems,
-- and are empty alike, however their maps are laid out.
pub run-knowledge :
    (os ps qs : List Operation)
    → knowledge (reached os) ≡ knowledge (reached ps)
    → let c = run qs (run os new) in
      let d = run qs (run ps new) in
      SameAnswers c d
      × (len c ≡ len d)
      × (filesystems c ≡ filesystems d)
      × (is_empty c ≡ is_empty d)
unfolding handles known_filesystems nothing_known
run-knowledge os ps qs e =
    let same = knowledge-operated_each qs (reached os) (reached ps) e in
    rw (← cache-operated_each qs (reached os), ← cache-operated_each qs (reached ps))
      (
        (knowledge_exact (operated_each qs (reached os)) (operated_each qs (reached ps))).0 same,
        ap handles same,
        ap known_filesystems same,
        ap nothing_known same,
      )
