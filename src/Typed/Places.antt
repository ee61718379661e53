-- ===== src/Typed/Places.antt =====
-- src/value/typed.rs: the places of the handlers.
use x_engine_rust.Prelude.{
  ℕ, ◌≡◌, refl, sym, ap, ◌∙◌, ◌&&◌, Option, none, some, List, [], ◌∷◌, ◌==◌, if◌then◌else◌,
}
use x_engine_rust.Typed.{Family, handler_slot}

abbrev families : List Family
families =
    Family.mark ∷ Family.make ∷ Family.free ∷ Family.clone ∷ Family.units ∷ Family.length_of
    ∷ Family.call ∷ Family.eval ∷ Family.from ∷ Family.to ∷ Family.analyse ∷ Family.delimit
    ∷ Family.read ∷ Family.write ∷ Family.display ∷ Family.iter ∷ Family.ops ∷ Family.data_of ∷ []

-- The first family of a list that has a place.
unfoldable family_at : List Family → ℕ × ℕ → Option Family
unfolding handler_slot
family_at [] p = none
family_at (f ∷ fs) p =
    let more = family_at fs p in
    if (handler_slot f).0 == p.0 && (handler_slot f).1 == p.1 then some f else more

family_at-handler_slot : (f : Family) → family_at families (handler_slot f) ≡ some f
unfolding family_at handler_slot
family_at-handler_slot Family.mark = refl
family_at-handler_slot Family.make = refl
family_at-handler_slot Family.free = refl
family_at-handler_slot Family.clone = refl
family_at-handler_slot Family.units = refl
family_at-handler_slot Family.length_of = refl
family_at-handler_slot Family.call = refl
family_at-handler_slot Family.eval = refl
family_at-handler_slot Family.from = refl
family_at-handler_slot Family.to = refl
family_at-handler_slot Family.analyse = refl
family_at-handler_slot Family.delimit = refl
family_at-handler_slot Family.read = refl
family_at-handler_slot Family.write = refl
family_at-handler_slot Family.display = refl
family_at-handler_slot Family.iter = refl
family_at-handler_slot Family.ops = refl
family_at-handler_slot Family.data_of = refl

-- No two families share a place in a type.
pub handler_slot-injective : (f g : Family) → handler_slot f ≡ handler_slot g → f ≡ g
handler_slot-injective f g e =
    some_inj (sym (family_at-handler_slot f) ∙ ap (family_at families) e ∙ family_at-handler_slot g)
  where
    some_inj : {x y : Family} → some x ≡ some y → x ≡ y
    some_inj h = cc
