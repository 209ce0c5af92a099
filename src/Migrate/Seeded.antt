-- ===== src/Migrate/Seeded.antt =====
-- What `seed_zones` does to the counters.
use mathlib.Core.Path.{subst}
use fleet_telemetry_system.Prelude.{
  ℕ, String, Bool, true, false, ◌||◌, Option, none, some, List, [], ◌∷◌, ◌≡◌, refl, sym, ap, ◌∙◌,
  ok, arith, ◌==◌, eq_iff,
}
use fleet_telemetry_system.Prelude.Dict.{Dict, lookup, lookup-upsert}
use fleet_telemetry_system.Models.Zones.{zones}
use fleet_telemetry_system.Store.{Db, Session, execute, transaction, ◌>>=◌}
use fleet_telemetry_system.Store.Ensures.{
  Ensures, Ensures-execute, Ensures-bind, Transacted, transaction-Transacted, transaction-ok,
  Ensures-transaction,
}
use fleet_telemetry_system.Migrate.{with_row, seed_zone, seed_all, seed_zones, is_among}

-- A counter that has a row keeps it; a zone to be seeded that has none gets a row at zero.
abbrev pub or_zero : Bool → Option ℕ → Option ℕ
or_zero seeded (some n) = some n
or_zero true none = some 0
or_zero false none = none

pub record IsSeeded {F : Type 0} (zs : List String) (before after : Db F) : Type 0 where
  pub counters :
      (z : String)
      → lookup z after.zone_counts ≡ or_zero (is_among z zs) (lookup z before.zone_counts)
  pub others : after ≡ record before { zone_counts = after.zone_counts }

or_zero-false : (o : Option ℕ) → o ≡ or_zero false o
or_zero-false none = refl
or_zero-false (some n) = refl

or_zero-twice : (a b : Bool) (o : Option ℕ) → or_zero b (or_zero a o) ≡ or_zero (a || b) o
or_zero-twice a b (some n) = refl
or_zero-twice true b none = refl
or_zero-twice false true none = refl
or_zero-twice false false none = refl

lookup-with_row :
    (y z : String) (counts : Dict ℕ)
    → lookup z (with_row y (lookup y counts) counts) ≡ or_zero (y == z) (lookup z counts)
lookup-with_row y z counts = go (lookup y counts) refl
  where
    go :
        (o : Option ℕ)
        → lookup y counts ≡ o
        → lookup z (with_row y o counts) ≡ or_zero (y == z) (lookup z counts)
    go none h = ground (arith, lookup-upsert y z 0 counts, eq_iff y z, h)
    go (some n) h = ground (arith, eq_iff y z, h, or_zero-false (lookup z counts))

module _ {F : Type 0} where
  first_zone :
      (y : String) (zs : List String) (b b' b'' : Db F)
      → seed_zone y b ≡ ok (tt, b')
      → IsSeeded zs b' b''
      → IsSeeded (y ∷ zs) b b''
  unfolding seed_zone
  first_zone y zs b b' b'' first rest = record {
    counters = λ z.
        rest.counters z
        ∙ ap (or_zero (is_among z zs)) (ap (lookup z) moved ∙ lookup-with_row y z b.zone_counts)
        ∙ or_zero-twice (y == z) (is_among z zs) (lookup z b.zone_counts);
    others = ground (arith, rest.others, first);
  }
    where
      moved : b'.zone_counts ≡ with_row y (lookup y b.zone_counts) b.zone_counts
      moved = ground (arith, first)

  pub seed_all-Ensures :
      (zs : List String) → Ensures (seed_all {F = F} zs) (λ b _ b'. IsSeeded zs b b')
  unfolding seed_all
  seed_all-Ensures [] = record {
    at = λ s a h. record {
      counters = λ z. or_zero-false (lookup z s.db.zone_counts);
      others = refl;
    };
  }
  seed_all-Ensures (y ∷ zs) = record {
    at = λ s a h.
        let (_, b', first, rest) =
          (Ensures-bind (Ensures-execute (seed_zone y)) (λ _. seed_all-Ensures zs)).at s a h in
        first_zone y zs s.db b' _ first rest;
  }

  -- A call of `seed_zones` that returns has given each of the zones that had no counter one at zero,
  -- has reset no counter, and has changed nothing else; one that raises changed nothing.
  pub seed_zones-Transacted :
      (s : Session F) → Transacted (λ b _ b'. IsSeeded zones b b') s (seed_zones s)
  unfolding seed_zones
  seed_zones-Transacted s = transaction-Transacted s (seed_all-Ensures zones)

  seed_all-calm :
      (zs : List String) (db : Db F) (local : ℕ → ℕ)
      → (seed_all zs (record { db = db; outages = []; local = local })).0 ≡ ok tt
  unfolding seed_all execute seed_zone ◌>>=◌
  seed_all-calm [] db local = refl
  seed_all-calm (y ∷ zs) db local = seed_all-calm zs _ local

  -- If no statement fails, `seed_zones` returns, and then every zone of app/models.py has a counter.
  pub seed_zones-ok :
      (s : Session F) (z : String)
      → s.outages ≡ []
      → is_among z zones ≡ true
      → ((seed_zones s).0 ≡ ok tt)
        × (lookup z (seed_zones s).1.db.zone_counts ≡ or_zero true (lookup z s.db.zone_counts))
  unfolding seed_zones
  seed_zones-ok s z h among =
      let body : (seed_all zones s).0 ≡ ok tt =
        subst (λ o. (seed_all zones (record s { outages = o })).0 ≡ ok tt) (sym h)
          (seed_all-calm zones s.db s.local) in
      let done : (transaction (seed_all zones) s).0 ≡ ok tt =
        transaction-ok (seed_all zones) s body in
      let seeded = (Ensures-transaction (seed_all-Ensures zones)).at s tt done in
      (done, seeded.counters z ∙ ap (λ b. or_zero b (lookup z s.db.zone_counts)) among)
