-- ===== src/Crunch/Types.antt =====
-- The data of src/morceus/cruncher_types.ts and src/morceus/stem_parsing.ts. A `Map` is a function from
-- its keys; a flag that is `true` or absent is a Boolean.
use morcus_net.Prelude.{Option, List, Bool, Text}
use morcus_net.Inflection.Tags.{InflectionContext}

-- `StemCode`: `"no"`, `"aj"`, `"wd"`, `"vs"`, `"vb"` and `"de"`.
pub data StemCode : Type 0 where
  no_code aj_code wd_code vs_code vb_code de_code : StemCode

-- `Stem`.
pub record Stem : Type 0 where
  pub context : InflectionContext
  pub code : Option StemCode
  pub stem : Text
  pub inflection : Text

-- `IrregularForm`.
pub record IrregularForm : Type 0 where
  pub context : InflectionContext
  pub code : Option StemCode
  pub form : Text

-- `InflectionEnding`.
pub record InflectionEnding : Type 0 where
  pub context : InflectionContext
  pub ending : Text

-- `Stem | IrregularForm`, told apart by `"form" in candidate`.
pub data Candidate : Type 0 where
  regular : Stem → Candidate
  irregular : IrregularForm → Candidate

-- `StemMapValue`.
pub record StemMapValue : Type 0 where
  pub candidate : Candidate
  pub lemma : Text
  pub is_verb : Bool

-- `CruncherTables`, with the maps that crunching reads.
pub record CruncherTables : Type 0 where
  pub ends_map : Text → Option (List Text)
  pub stem_map : Text → Option (List StemMapValue)
  pub inflection_lookup : Text → Option (Text → Option (List InflectionEnding))

-- `CruncherOptions`. The two relaxations of spelling may be absent.
pub record CruncherOptions : Type 0 where
  pub relax_case : Bool
  pub relax_u_and_v : Option Bool
  pub relax_i_and_j : Option Bool
  pub handle_enclitics : Bool
  pub skip_consolidation : Bool

-- `CrunchResult`.
pub record CrunchResult : Type 0 where
  pub context : InflectionContext
  pub lemma : Text
  pub form : Text
  pub stem : Option Stem
  pub end : Option InflectionEnding
  pub relaxed_case : Bool
  pub enclitic : Option Text
  pub is_verb : Bool

-- An assertion that fails, a table or a first letter that is missing, or a loop that has not ended.
pub data CrunchError : Type 0 where
  bad_code no_table no_first out_of_fuel : CrunchError
