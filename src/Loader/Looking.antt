-- ===== src/Loader/Looking.antt =====
-- What looking at a record does to the loader, for any predicate on its world.
use mcpfz_probe.Base.{
  ◌≡◌, refl, ℕ, String, Bool, true, false, Option, none, some, List, if◌then◌else◌,
}
use mcpfz_probe.Base.Int.{ℤ}
use mcpfz_probe.Io.{Write}
use mcpfz_probe.Json.{Json}
use mcpfz_probe.LoaderState.{World, State, Batch, draining, emitting, attributed, cached, same_pgid}
use mcpfz_probe.Loader.{group, decoded, in_group, in_scope}

module _ ⦃W : Write⦄ ⦃J : Json⦄ where
  pub if-any : (P : World → Type 0) (t : Bool) (x y : World) → P x → P y → P (if t then x else y)
  if-any P true x y hx hy = hx
  if-any P false x y hx hy = hy

  module _ (clock : ℕ → ℕ) (stat : ℕ → ℕ → Option String) where
    -- Looking at a record goes on to the next record, or to the event of what is decoded, and changes
    -- nothing else but the cache and the number of files that were read.
    module _ (P : World → Type 0) (b : Batch) (w : World) (s : State) (pid : ℕ)
        (found : Option J.Map)
        (next : (n : ℕ) (cache : List (ℕ × Option ℤ))
          → P (record w { stat_reads = n; main = draining (record b { pgid_cache = cache }) }))
        (event : (n : ℕ) (cache : List (ℕ × Option ℤ)) (o : J.Map)
          → found ≡ some o
          → P (record w {
            stat_reads = n;
            main = emitting (record b { pgid_cache = cache }) (attributed s pid o);
          })) where
      decoded-made :
          (o : Option J.Map) (cache : List (ℕ × Option ℤ)) (n : ℕ)
          → found ≡ o
          → P (
              decoded clock stat s pid o
                (record b { pgid_cache = cache })
                (record w { stat_reads = n }))
      decoded-made none cache n e = next n cache
      decoded-made (some o) cache n e = event n cache o e

      in_group-made :
          (g : Option ℤ) (cache : List (ℕ × Option ℤ)) (n : ℕ)
          → P (
              in_group clock stat s pid found
                (g, (record b { pgid_cache = cache }, record w { stat_reads = n })))
      in_group-made g cache n =
          if-any P (same_pgid g s.scope_pgid) _ _ (decoded-made found cache n refl) (next n cache)

      group-made :
          (in_cache : Option (Option ℤ))
          → P (in_group clock stat s pid found (group clock stat in_cache pid b w))
      group-made (some g) = in_group-made g b.pgid_cache w.stat_reads
      group-made none = in_group-made _ _ _

      pub in_scope-made : P (in_scope clock stat s pid found b w)
      in_scope-made =
          if-any P s.scoped _ _ (group-made (cached pid b.pgid_cache))
            (decoded-made found b.pgid_cache w.stat_reads refl)

    -- The same for a predicate that any event satisfies.
    pub in_scope-any :
        (P : World → Type 0) (b : Batch) (w : World)
        → ((n : ℕ) (cache : List (ℕ × Option ℤ))
            → P (record w { stat_reads = n; main = draining (record b { pgid_cache = cache }) }))
        → ((n : ℕ) (cache : List (ℕ × Option ℤ)) (o : J.Map)
            → P (record w { stat_reads = n; main = emitting (record b { pgid_cache = cache }) o }))
        → (s : State) (pid : ℕ) (found : Option J.Map) → P (in_scope clock stat s pid found b w)
    in_scope-any P b w next event s pid found =
        in_scope-made P b w s pid found next (λ n cache o e. event n cache (attributed s pid o))
