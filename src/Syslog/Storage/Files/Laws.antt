-- ===== src/Syslog/Storage/Files/Laws.antt =====
-- Reading a directory after a change.
use home_assistant_apps.Prelude.{◌≡◌, refl, ◌↔◌, [], ◌∷◌, true, none, some, if◌then◌else◌, arith}
use home_assistant_apps.Syslog.Storage.Files.{
  FileName, base, daily, segment, foreign, Content, name_eq, Dir, get, remove, put,
}

pub name_eq_refl : (f : FileName) → name_eq f f ≡ true
unfolding name_eq
name_eq_refl base = refl
name_eq_refl (daily s d) = ground arith
name_eq_refl (segment s d n) = ground arith
name_eq_refl (foreign n) = ground arith

pub name_eq→≡ : (f g : FileName) → name_eq f g ≡ true → f ≡ g
unfolding name_eq
name_eq→≡ f g h = ground arith

pub name_eq_iff : (f g : FileName) → (name_eq f g ≡ true) ↔ (f ≡ g)
name_eq_iff f g = (name_eq→≡ f g, λ e. rw e (name_eq_refl g))

pub get-remove :
    (f g : FileName) (dir : Dir) → get g (remove f dir) ≡ (if name_eq f g then none else get g dir)
unfolding get remove
get-remove f g [] = ground arith
get-remove f g ((h, c) ∷ dir) =
    ground (arith, name_eq_iff f g, name_eq_iff h f, name_eq_iff h g, get-remove f g dir)

pub get-put :
    (f g : FileName) (c : Content) (dir : Dir)
    → get g (put f c dir) ≡ (if name_eq f g then some c else get g dir)
unfolding get put
get-put f g c dir = ground (arith, get-remove f g dir)
