-- ===== src/Prelude/Names.antt =====
-- The names that the children of Prelude share.
pub use qsl.Prelude.Tests.{
  ltb, leb, ◌==◌, if◌then◌else◌, ==_iff, leb→le, le→leb, Bool-cases, Option-cases,
}
pub use qsl.Prelude.Lists.{
  length, take, drop, get_elem?, filter, any, All, length-append, length-take, All-append,
  All-append_split, any-append, any-weaken, All-false, All-weaken, All-both, All-take, length-map,
}
unfoldable pub use qsl.Prelude.Codes.{eq_text}
pub use qsl.Prelude.Codes.{Text, codes, eq_text_iff, eq_text_refl}
pub use Prim.Native.Nat.{ℕ, zero, suc, ◌+◌, ◌-◌, ◌*◌, ◌/◌, ◌%◌, ◌^◌, ◌≤◌, ◌<◌, min, max}
pub use mathlib.Core.Path.{◌≡◌, refl, sym, ap, ap₂, ◌∙◌, subst, fun_ext}
pub use mathlib.Core.Logic.{◌≢◌, ◌↔◌, ◌⊎◌, inl, inr}
pub use mathlib.Core.Bool.{Bool, true, false, not, ◌&&◌, ◌||◌}
pub use mathlib.Core.Option.{Option, none, some}
pub use mathlib.Core.List.{List, [], ◌∷◌, ◌++◌, map, append-nil, append_assoc}
pub use native.Mathlib.Omega.{arith}
