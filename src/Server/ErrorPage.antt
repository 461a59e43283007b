-- ===== src/Server/ErrorPage.antt =====
-- web/src/lib/error-page.ts: the page that is sent where rendering has failed.
use forgequeue.Common.{List, [], ◌∷◌, Text, txt, join}

abbrev page_lines : List Text
page_lines =
    txt "<!doctype html>"
    ∷ txt "<html lang=\"en\">"
    ∷ txt "  <head>"
    ∷ txt "    <meta charset=\"utf-8\" />"
    ∷ txt "    <title>This page didn't load</title>"
    ∷ txt "    <meta name=\"viewport\" content=\"width=device-width, initial-scale=1\" />"
    ∷ txt "    <style>"
    ∷ txt
        "      body { font: 15px/1.5 system-ui, -apple-system, sans-serif; background: #fafafa; color: #111; display: grid; place-items: center; min-height: 100vh; margin: 0; padding: 1.5rem; }"
    ∷ txt "      .card { max-width: 28rem; width: 100%; text-align: center; padding: 2rem; }"
    ∷ txt "      h1 { font-size: 1.25rem; margin: 0 0 0.5rem; }"
    ∷ txt "      p { color: #4b5563; margin: 0 0 1.5rem; }"
    ∷ txt "      .actions { display: flex; gap: 0.5rem; justify-content: center; flex-wrap: wrap; }"
    ∷ txt
        "      a, button { padding: 0.5rem 1rem; border-radius: 0.375rem; font: inherit; cursor: pointer; text-decoration: none; border: 1px solid transparent; }"
    ∷ txt "      .primary { background: #111; color: #fff; }"
    ∷ txt "      .secondary { background: #fff; color: #111; border-color: #d1d5db; }"
    ∷ txt "    </style>"
    ∷ txt "  </head>"
    ∷ txt "  <body>"
    ∷ txt "    <div class=\"card\">"
    ∷ txt "      <h1>This page didn't load</h1>"
    ∷ txt "      <p>Something went wrong on our end. You can try refreshing or head back home.</p>"
    ∷ txt "      <div class=\"actions\">"
    ∷ txt "        <button class=\"primary\" onclick=\"location.reload()\">Try again</button>"
    ∷ txt "        <a class=\"secondary\" href=\"/\">Go home</a>"
    ∷ txt "      </div>"
    ∷ txt "    </div>"
    ∷ txt "  </body>"
    ∷ txt "</html>"
    ∷ []

-- `renderErrorPage`
unfoldable pub render_error_page : Text
render_error_page = join page_lines (b'\n' ∷ [])
