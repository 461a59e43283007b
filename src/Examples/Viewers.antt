-- ===== src/Examples/Viewers.antt =====
-- web/src/components/json-viewer.tsx: an object with a list in it.
use forgequeue.Common.{◌≡◌, refl, true, false, none, List, [], ◌∷◌, txt, join, show_nat}
use forgequeue.Types.{Json, bool, number, text, array, object, nil, cons, end, member}
use forgequeue.Common.{pos}
use forgequeue.Console.Viewer.{
  Viewer, choose_raw, expand_all, press_node, new_value, open_viewer, viewer_step, viewer_run,
  viewer_content, tree_rows, raw_text,
}
use forgequeue.Console.Viewer.Stringify.{pretty_lines, quote, compact}
use forgequeue.Console.Viewer.Rows.{Row}
use forgequeue.Console.Viewer.Fits.{IsWhole, viewer_run-IsWhole}
use forgequeue.Console.Viewer.Lines.{AreLines, is_plain, expand_all-AreLines}

abbrev payload : Json
payload = object (
    member (txt "to") (text (txt "a\"b"))
      (member (txt "tags") (array (cons (number (pos 1)) (cons (bool true) nil))) end))

viewer_run-IsWhole_example : IsWhole (
    viewer_run
      (press_node (txt "tags" ∷ [])
        ∷ new_value (array (cons payload nil))
        ∷ expand_all
        ∷ choose_raw true
        ∷ choose_raw false
        ∷ [])
      (open_viewer payload))
viewer_run-IsWhole_example =
    viewer_run-IsWhole
      (press_node (txt "tags" ∷ [])
        ∷ new_value (array (cons payload nil))
        ∷ expand_all
        ∷ choose_raw true
        ∷ choose_raw false
        ∷ [])
      payload

abbrev opened_payload : Viewer
opened_payload = record { raw = false; all_open = false; value = payload; tree = none }

payload_plain : is_plain payload ≡ true
unfolding is_plain
payload_plain = refl

expand_all-AreLines_example :
    (rs : List Row) × (viewer_content (viewer_step expand_all opened_payload) ≡ tree_rows rs)
    × (viewer_content (viewer_step (choose_raw true) opened_payload)
        ≡ raw_text (join (pretty_lines 0 [] payload []) (b'\n' ∷ [])))
    × AreLines rs (pretty_lines 0 [] payload [])
expand_all-AreLines_example = expand_all-AreLines opened_payload refl refl payload_plain

pretty_test :
    pretty_lines 0 [] payload []
    ≡ txt "{"
      ∷ txt "  \"to\": \"a\\\"b\","
      ∷ txt "  \"tags\": ["
      ∷ txt "    1,"
      ∷ txt "    true"
      ∷ txt "  ]"
      ∷ txt "}"
      ∷ []
unfolding pretty_lines quote show_nat
pretty_test = refl

compact_test : compact payload ≡ txt "{\"to\":\"a\\\"b\",\"tags\":[1,true]}"
unfolding compact quote join show_nat
compact_test = refl
