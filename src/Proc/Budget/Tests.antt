-- ===== src/Proc/Budget/Tests.antt =====
-- proc.c: the charge of a concrete fork.
use rv.Prelude.{◌≤◌, ◌≡◌, refl, true, List, [], ◌∷◌, all}
use rv.Proc.{Proc, current_locked}
use rv.Proc.Sample.{shell, command, over_with, table}
use rv.Proc.Budget.{
  Charge, granted, on_serial, over, any_over, take_on_all, ancestors_of, charge_locked, refund,
}
use rv.Proc.Budget.Within.{is_within, charge_locked-within}
use rv.Proc.Budget.Refund.{refund-charge_locked}

-- The command forks a task of 500 bytes.
abbrev charged : List Proc
charged =
    over_with
    ∷ record command { held = 1500; ext_held = 20 }
    ∷ record shell { held = 1500; ext_held = 20 }
    ∷ []

abbrev charge : Charge
charge = record { serial = 4; bytes = 500; ext = 20; ancestors = 2 ∷ 1 ∷ [] }

is_charged : charge_locked 4 12 500 32768 20 0xffff_ffff table ≡ granted charge charged 5
unfolding charge_locked current_locked ancestors_of any_over over take_on_all on_serial
is_charged = refl

charge_locked-within_example : (all is_within charged ≡ true) × (500 ≤ 32768) × (20 ≤ 0xffff_ffff)
unfolding current_locked ancestors_of
charge_locked-within_example =
    charge_locked-within 4 12 500 32768 20 0xffff_ffff 5 table charged charge refl refl is_charged

refund-charge_locked_example : refund charge charged ≡ table
unfolding current_locked ancestors_of
refund-charge_locked_example =
    refund-charge_locked 4 12 500 32768 20 0xffff_ffff 5 table charged charge refl is_charged
