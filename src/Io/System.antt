-- ===== src/Io/System.antt =====
-- Code that calls the operating system: every call leaves a world behind, also where it fails.
use rs.Prelude.{◌⊎◌, inl, inr}

abbrev pub Sys : Type 0 → Type 0 → Type 0 → Type 0
Sys W E A = W → (E ⊎ A) × W

unfoldable pub proceed : {W E A B : Type 0} → (A → Sys W E B) → (E ⊎ A) × W → (E ⊎ B) × W
proceed f (inl e, w) = (inl e, w)
proceed f (inr a, w) = f a w

infixl 5 ◌>>=◌
unfoldable pub ◌>>=◌ : {W E A B : Type 0} → Sys W E A → (A → Sys W E B) → Sys W E B
unfolding proceed
◌>>=◌ m f w = proceed f (m w)

abbrev pub return : {W E A : Type 0} → A → Sys W E A
return a w = (inr a, w)

-- `?` on a result that calls nothing.
abbrev pub hoist : {W E A : Type 0} → E ⊎ A → Sys W E A
hoist r w = (r, w)

unfoldable pub map_left : {W E F A : Type 0} → (E → F) → (E ⊎ A) × W → (F ⊎ A) × W
map_left f (inl e, w) = (inl (f e), w)
map_left f (inr a, w) = (inr a, w)

-- `map_err` with the context of the error.
unfoldable pub map_err : {W E F A : Type 0} → (E → F) → Sys W E A → Sys W F A
unfolding map_left
map_err f m w = map_left f (m w)
