-- ===== src/Inflection/Upos/Tests.antt =====
-- A run of `convertUpos` of src/morceus/inflection_data_utils.ts.
use morcus_net.Prelude.{◌≡◌, refl, ok, codes}
use morcus_net.Inflection.Types.{single, no_data, plural, indicative}
use morcus_net.Inflection.Upos.{convert_upos}
use morcus_net.Inflection.Upos.Shape.{IsUposData, convert_upos-IsUposData}

verb_read :
    convert_upos (codes "Mood=Ind|Number=Plur")
    ≡ ok (record no_data { number = single plural; mood = single indicative })
unfolding convert_upos
verb_read = refl

convert_upos-IsUposData_example :
    IsUposData (record no_data { number = single plural; mood = single indicative })
convert_upos-IsUposData_example =
    convert_upos-IsUposData (codes "Mood=Ind|Number=Plur")
      (record no_data { number = single plural; mood = single indicative }) verb_read
