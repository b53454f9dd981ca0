-- ===== src/Loader/Apart.antt =====
-- What the steps of the control thread of the loader leave to the other one.
use mcpfz_probe.Base.{
  ℕ, String, ◌≡◌, refl, true, Bool-cases, inl, inr, Option, none, List, [], ◌∷◌, str_eq,
}
use mcpfz_probe.Base.Text.{trim, is_empty}
use mcpfz_probe.Io.{Result, ok, err, Write}
use mcpfz_probe.Json.{Json}
use mcpfz_probe.Script.{Control, scope, mark, shutdown, Reader}
use mcpfz_probe.LoaderState.{World, Label, ControlPoint, reading, reporting, stopped}
use mcpfz_probe.Loader.{update, on_message, on_line, control_step}
use mcpfz_probe.Loader.Trace.{last_closed, call_of_record, call_of_end}

module _ ⦃W : Write⦄ ⦃J : Json⦄ where
  module _ (clock : ℕ → ℕ) (stat : ℕ → ℕ → Option String) where
    -- What a step of the control thread keeps: it closes no round, takes out no record
    -- and applies no end mark, and it has ended if it sets the
    -- flag.
    pub record Apart (w : World) (p : List Label × World) : Type 0 where
      pub closes : last_closed p.0 ≡ none
      pub quiet : (c l : Option String) → (call_of_record c l p.0 ≡ l) × (call_of_end c l p.0 ≡ l)
      pub ends :
          (w.shutdown ≡ true → w.control ≡ stopped) → p.1.shutdown ≡ true → p.1.control ≡ stopped
      pub keeps : w.shutdown ≡ true → p.1.shutdown ≡ true

    update-Apart :
        (message : Control) (w : World)
        → w.control ≡ reading
        → Apart w (update clock stat message w)
    update-Apart (scope pgid generation) w e = record {
      closes = refl;
      quiet = λ c l. (refl, refl);
      ends = λ h on. cc (h on);
      keeps = λ on. on;
    }
    update-Apart (mark phase call tool) w e = elim (Bool-cases (str_eq phase "begin")) [
      | inl is_begin ↦ rw is_begin (record {
        closes = refl;
        quiet = λ c l. (refl, refl);
        ends = λ h on. cc (h on);
        keeps = λ on. on;
      })
      | inr not_begin ↦ elim (Bool-cases (str_eq phase "end")) [
        | inl is_end ↦
            rw (not_begin, is_end)
              (record {
                closes = refl;
                quiet = λ c l. (refl, refl);
                ends = λ h on. h on;
                keeps = λ on. on;
              })
        | inr not_end ↦
            rw (not_begin, not_end)
              (record {
                closes = refl;
                quiet = λ c l. (refl, refl);
                ends = λ h on. h on;
                keeps = λ on. on;
              })
      ]
    ]
    update-Apart shutdown w e = record {
      closes = refl;
      quiet = λ c l. (refl, refl);
      ends = λ h on. refl;
      keeps = λ on. refl;
    }

    module _ ⦃R : Reader⦄ where
      on_message-Apart :
          (message : Result Control R.ParseError) (w : World)
          → w.control ≡ reading
          → Apart w (on_message clock stat message w)
      on_message-Apart (ok message) w e = update-Apart message w e
      on_message-Apart (err x) w e = record {
        closes = refl;
        quiet = λ c l. (refl, refl);
        ends = λ h on. h on;
        keeps = λ on. on;
      }

      on_line-Apart :
          (lines : List (Result String W.Error)) (w : World)
          → w.control ≡ reading
          → Apart w (on_line clock stat lines w)
      on_line-Apart [] w e = record {
        closes = refl;
        quiet = λ c l. (refl, refl);
        ends = λ h on. refl;
        keeps = λ on. refl;
      }
      on_line-Apart (err x ∷ rest) w e = record {
        closes = refl;
        quiet = λ c l. (refl, refl);
        ends = λ h on. refl;
        keeps = λ on. refl;
      }
      on_line-Apart (ok line ∷ rest) w e = elim (Bool-cases (is_empty (trim line))) [
        | inl blank ↦ rw blank (record {
          closes = refl;
          quiet = λ c l. (refl, refl);
          ends = λ h on. h on;
          keeps = λ on. on;
        })
        | inr full ↦
            let a =
              on_message-Apart (R.control_from_str (trim line)) (record w { lines = rest }) e in
            rw full (record { closes = a.closes; quiet = a.quiet; ends = a.ends; keeps = a.keeps })
      ]

      pub control-Apart :
          (c : ControlPoint) (w : World)
          → Apart (record w { control = c }) (control_step clock stat (record w { control = c }))
      unfolding control_step
      control-Apart reading w = on_line-Apart w.lines (record w { control = reading }) refl
      control-Apart (reporting message) w = record {
        closes = refl;
        quiet = λ c l. (refl, refl);
        ends = λ h on. cc (h on);
        keeps = λ on. on;
      }
      control-Apart stopped w = record {
        closes = refl;
        quiet = λ c l. (refl, refl);
        ends = λ h on. refl;
        keeps = λ on. on;
      }
