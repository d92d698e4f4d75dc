-- ===== src/Domain.antt =====
-- packages/beckn-schemas/src/domain.ts: the enumerations that the program's logic reads.
use beckn_data_commons.Base.{String, Option, none, some, ◌==◌, if◌then◌else◌}
use beckn_data_commons.Json.{Json, str}

pub data LicenseClass : Type 0 where
  permissive research_only no_redistribution : LicenseClass

abbrev pub license_text : LicenseClass → String
license_text permissive = "permissive"
license_text research_only = "research-only"
license_text no_redistribution = "no-redistribution"

unfoldable pub license_of : String → Option LicenseClass
license_of s =
    if s == "permissive"
    then some permissive
    else if s == "research-only"
    then some research_only
    else if s == "no-redistribution"
    then some no_redistribution
    else none

unfoldable pub license_class : Json → Option LicenseClass
unfolding license_of
license_class (str s) = license_of s
license_class _ = none
