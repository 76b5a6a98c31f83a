-- ===== src/Api/Tests.antt =====
-- An answer to try the client on, and the theorem applied to it.
use app_dockhand.Base.{
  none, some, refl, txt, Text, Option, [], ◌≡◌, ◌≢◌, ◌||◌, true, false, text_eq, starts_with,
}
use app_dockhand.Api.{Response, Location, api, api-IsFailure, IsFailure, ws_url, is_ok}

abbrev denied : Response
denied = record { status = 401; status_text = txt "Unauthorized"; text = [] }

abbrev home_page : Location
home_page = record { pathname = txt "/"; search = [] }

-- Here a JSON value is its text.
abbrev as_text : Text → Option Text
as_text s = some s

abbrev same : Text → Text
same s = s

api-IsFailure_example :
    (is_ok denied.status ≡ false
      → IsFailure as_text same same denied
          (api as_text same same (txt "/api/hosts") denied home_page).outcome)
    × ((api as_text same same (txt "/api/hosts") denied home_page).go_to ≢ none
        → IsFailure as_text same same denied
            (api as_text same same (txt "/api/hosts") denied home_page).outcome)
    × ((starts_with (txt "/api/hosts") (txt "/api/auth/")
            || text_eq home_page.pathname (txt "/login")
            || text_eq home_page.pathname (txt "/setup"))
          ≡ true
        → (api as_text same same (txt "/api/hosts") denied home_page).go_to ≡ none)
api-IsFailure_example = api-IsFailure as_text same same (txt "/api/hosts") denied home_page

dev_url :
    ws_url (some (txt "https://dev:1")) (txt "http:") (txt "host") (txt "/api/x")
    ≡ txt "wss://dev:1/api/x"
unfolding ws_url starts_with
dev_url = refl
