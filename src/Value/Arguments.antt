-- ===== src/Value/Arguments.antt =====
-- The arguments of a read, as roles/msp_broker/files/broker/service.py and proxmox.py there take
-- them.
use msp_fleet_public.Base.{String, true, false}
use msp_fleet_public.Failure.{Result, ok, err, crash}
use msp_fleet_public.Value.{Value, str, arr, nil, cons, truthy}

abbrev pub first_char : String → String
first_char String.[] = ""
first_char (String.◌∷◌ c s) = String.◌∷◌ c String.[]

-- `args[0] if args else ""`: a text has characters, and what has no first element raises
unfoldable pub first_arg : Value → Result Value
unfolding truthy
first_arg (str s) = ok (str (first_char s))
first_arg (arr nil) = ok (str "")
first_arg (arr (cons v vs)) = ok v
first_arg v = elim (truthy v) [ true ↦ err crash | false ↦ ok (str "") ]
