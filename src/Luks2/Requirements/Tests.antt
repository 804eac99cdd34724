-- ===== src/Luks2/Requirements/Tests.antt =====
-- lib/luks2/luks2_json_metadata.c: runs on a header with an unknown requirement.
use cryptsetup.Base.{◌≡◌, refl, ok, err, einval}
use cryptsetup.Base.Strings.{same, codes}
use cryptsetup.Json.Laws.{find_member}
use cryptsetup.Json.Sample.{
  Value, string, empty_object, empty_array, member, element, sample_json, sample_json-IsJsonC,
}
use cryptsetup.Luks2.Requirements.{
  config_get_requirements, config_set_requirements, take_flags, read_mandatory, name_flag,
}
use cryptsetup.Luks2.Requirements.RoundTrip.{config_get_requirements-config_set_requirements}

abbrev with_requirements : Value → Value
with_requirements names =
    member (codes "config")
      (member (codes "requirements") (member (codes "mandatory") names empty_object) empty_object)
      empty_object

abbrev sample : Value
sample = with_requirements (element (string (codes "new-feature")) empty_array)

abbrev online : Value
online = with_requirements (element (string (codes "online-reencrypt")) empty_array)

sample_unknown : config_get_requirements sample_json sample ≡ 2147483648
unfolding config_get_requirements read_mandatory name_flag find_member same
sample_unknown = refl

set_again : config_set_requirements sample_json sample 2 ≡ ok online
unfolding config_set_requirements take_flags find_member same
set_again = refl

sample_refused : config_set_requirements sample_json sample 4 ≡ err einval
unfolding config_set_requirements take_flags
sample_refused = refl

sample_cleared :
    config_set_requirements sample_json online 0
    ≡ ok (member (codes "config") empty_object empty_object)
unfolding config_set_requirements take_flags find_member same
sample_cleared = refl

config_get_requirements-config_set_requirements_example :
    config_get_requirements sample_json online ≡ 2
config_get_requirements-config_set_requirements_example =
    config_get_requirements-config_set_requirements sample_json sample online 2 sample_json-IsJsonC
      set_again
