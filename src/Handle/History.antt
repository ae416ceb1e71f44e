-- ===== src/Handle/History.antt =====
-- A cache after any sequence of operations, against a partial function that takes the same ones.
use fanotify_fid.Base.{◌≡◌, refl, ap, ◌∙◌, ◌&&◌, Option, none, some, List, [], ◌∷◌, if◌then◌else◌}
use fanotify_fid.Bytes.{Bytes}
use fanotify_fid.Fid.Event.{Fsid, FilePath}
use fanotify_fid.Handle.Key.{same_fsid, same_bytes}
use fanotify_fid.Handle.Cache.{
  HandleCache, path_of, remember, forget, forget_filesystem, clear, with_path,
}
use fanotify_fid.Handle.View.{path_of-remember, path_of-forget, path_of-forget_filesystem}

pub data Operation : Type 0 where
  remembering : Fsid → Bytes → FilePath → Operation
  forgetting : Fsid → Bytes → Operation
  forgetting_filesystem : Fsid → Operation
  clearing : Operation

unfoldable pub apply_operation : Operation → HandleCache → HandleCache
apply_operation (remembering f h p) c = remember c f h p
apply_operation (forgetting f h) c = forget c f h
apply_operation (forgetting_filesystem f) c = forget_filesystem c f
apply_operation clearing c = clear c

-- The first operation of the list is the first one made.
unfoldable pub run : List Operation → HandleCache → HandleCache
run [] c = c
run (o ∷ os) c = run os (apply_operation o c)

abbrev pub Known : Type 0
Known = Fsid → Bytes → Option FilePath

unfoldable pub learn : Operation → Known → Known
learn (remembering f h p) known g k = if same_fsid g f && same_bytes k h then some p else known g k
learn (forgetting f h) known g k = if same_fsid g f && same_bytes k h then none else known g k
learn (forgetting_filesystem f) known g k = if same_fsid g f then none else known g k
learn clearing known g k = none

unfoldable pub learned : List Operation → Known → Known
learned [] known = known
learned (o ∷ os) known = learned os (learn o known)

pub path_of-apply_operation :
    (o : Operation) (c : HandleCache) (g : Fsid) (k : Bytes)
    → path_of (apply_operation o c) g k ≡ learn o (path_of c) g k
unfolding apply_operation learn
path_of-apply_operation (remembering f h p) c g k = path_of-remember c f g h k p
path_of-apply_operation (forgetting f h) c g k = path_of-forget c f g h k
path_of-apply_operation (forgetting_filesystem f) c g k = path_of-forget_filesystem c f g k k
path_of-apply_operation clearing c g k = unfold clear path_of with_path in refl

-- After any operations a cache answers as the partial function does that took the same ones.
pub path_of-run :
    (os : List Operation) (c : HandleCache) (g : Fsid) (k : Bytes)
    → path_of (run os c) g k ≡ learned os (path_of c) g k
unfolding run learned
path_of-run [] c g k = refl
path_of-run (o ∷ os) c g k =
    path_of-run os (apply_operation o c) g k
    ∙ ap (λ known. learned os known g k) (λ i. λ f. λ h. path_of-apply_operation o c f h i)
