-- ===== src/Api/Boot.antt =====
-- `GetBootScript` and `GetPreseed` of internal/api/handler.go.
use nodefoundry.Base.{ok, err, Text, codes}
use nodefoundry.Db.{NodeRepository}
use nodefoundry.Ipxe.{Generator, Netcfg, generate_by_status, generate_with_query}
use nodefoundry.Api.{Response, error_response, text_body, json}

module _ {S : Type 0} (repo : NodeRepository S) (g : Generator) where
  -- `GetBootScript`
  unfoldable pub get_boot_script : Text → S → Response
  get_boot_script mac store = elim (generate_by_status repo g mac store) [
    | err _ ↦ error_response 404 (codes "node not found")
    | ok script ↦ json 200 (text_body script)
  ]

  -- `GetPreseed`
  unfoldable pub get_preseed : Text → Netcfg → S → Response
  get_preseed mac query store = elim (generate_with_query repo g mac query store) [
    | err _ ↦ error_response 404 (codes "node not found")
    | ok preseed ↦ json 200 (text_body preseed)
  ]
