-- ===== src/Cost/Factor.antt =====
-- `resolveReplicationFactor`, `rfResolution` and `divideBy` of internal/cost/cost.go.
use obscost.Prelude.{String, Option, none, some, [], ◌∷◌, if◌then◌else◌, sprintf, show_int}
use obscost.Prelude.Int.{ℤ, pos, eqb_ℤ}
use obscost.Float.{Float, one}
use obscost.Cost.{Inventory, Measurement, inventory_source}

-- `rfResolution`
pub record Factor (F : Type 0) : Type 0 where
  pub value : Option F
  pub source : String

-- a note about an inventory factor that the write path makes void
ignored_note : Option ℤ → String → String
ignored_note none architecture = ""
ignored_note (some n) architecture =
    if eqb_ℤ n (pos 1)
    then ""
    else sprintf (
        "inventory.replication_factor ("
        ∷ show_int n
        ∷ ") is ignored: under "
        ∷ architecture
        ∷ " the driver query already counts each series once"
        ∷ [])

module _ {F : Type 0} ⦃f : Float F⦄ where
  -- `rfResolution.display`
  unfoldable pub display : Factor F → String
  display r = elim r.value [
    | none ↦ "unknown — absolute figures withheld, shares unaffected"
    | some v ↦ f.format_number v
  ]

  abbrev factor : Option F → String → Factor F
  factor v s = record { value = v; source = s }

  override_note : ℤ → Option F → String
  override_note n none = ""
  override_note n (some measured) =
      if f.eq measured (f.of_int n)
      then ""
      else sprintf (
          "inventory.replication_factor ("
          ∷ show_int n
          ∷ ") overrides the "
          ∷ f.format_number measured
          ∷ " reported by cortex_distributor_replication_factor"
          ∷ [])

  unknown_factor : Measurement F → Factor F × String
  unknown_factor m = (
    factor none "not reported by Mimir and not in the inventory",
    sprintf (
        "no replication factor is known, so absolute " ∷ m.pool.driver_unit
        ∷ " figures are withheld; shares are unaffected because a uniform replication factor cancels in a ratio"
        ∷ []),
  )

  -- `resolveReplicationFactor`
  unfoldable pub resolve_replication_factor : Measurement F → Inventory F → Factor F × String
  unfolding ignored_note override_note unknown_factor
  resolve_replication_factor m inv =
      if m.deduplicated
      then (
        factor (some one) (
            sprintf (
              m.architecture
              ∷ ": one owner per partition, zone replicas collapsed with max, so there is nothing to divide"
              ∷ [])),
        ignored_note inv.replication_factor m.architecture,
      )
      else elim inv.replication_factor [
        | some n ↦
            (factor (some (f.of_int n)) inventory_source, override_note n m.replication_factor)
        | none ↦ elim m.replication_factor [
          | none ↦ unknown_factor m
          | some v ↦ if f.le one v then (factor (some v) m.rf_query, "") else unknown_factor m
        ]
      ]

  -- `divideBy`
  unfoldable pub divide_by : F → Option F → Option F
  divide_by v none = none
  divide_by v (some by) = some (f.div v by)
