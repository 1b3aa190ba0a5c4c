-- ===== src/Platform/Inputs.antt =====
-- The input objects of the circuits: decimal strings and arrays of them, by name.
use Prim.Native.String.{String}
use fairproof_bcolbd.Prelude.{List, [], ◌∷◌, Option, none, some, if◌then◌else◌}
use fairproof_bcolbd.Prelude.Texts.{text_eq}
use fairproof_bcolbd.Field.{Text}
use fairproof_bcolbd.Platform.{codes}

pub data InputValue : Type 0 where
  one : Text → InputValue
  many : List Text → InputValue

pub record Input : Type 0 where
  pub name : Text
  pub value : InputValue

-- a property of the object
abbrev pub put : String → InputValue → Input
put name value = record { name = codes name; value = value }

-- the value that the circuit finds under a name
abbrev pub input_of : List Input → String → Option InputValue
input_of [] name = none
input_of (i ∷ inputs) name =
    if text_eq i.name (codes name) then some i.value else input_of inputs name
