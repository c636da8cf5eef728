-- ===== src/Classify/Tests.antt =====
-- Runs of pkg/classify/classifier.go, and the theorems at concrete inputs.
use vespasian.Prelude.{List, [], ◌∷◌, ◌++◌, ◌≡◌, refl, Bytes, codes, take, str_eq, str_lt}
use vespasian.Prelude.Int.{pos}
use vespasian.Prelude.Parts.{contains}
use vespasian.Classify.Responses.{
  ObservedResponse, response_populated, compare_responses, preferred_response,
}
use vespasian.Classify.Merging.{max_query_param_values, merge_unique_ordered, merge_loop}
use vespasian.Classify.Merging.Distinct.{firsts, merge_unique_ordered_lem}

abbrev empty_response : ObservedResponse
empty_response = record { status_code = pos 0; headers = []; content_type = []; body = [] }

abbrev found : ObservedResponse
found = record {
  status_code = pos 200;
  headers = [];
  content_type = codes "text/html";
  body = codes "hi";
}

abbrev gone : ObservedResponse
gone = record { status_code = pos 410; headers = []; content_type = []; body = [] }

populated-first : preferred_response (preferred_response empty_response gone) found ≡ found
unfolding preferred_response response_populated compare_responses str_eq str_lt
populated-first = refl

-- The headers are those of the response that was read first.
abbrev tagged : ObservedResponse
tagged = record gone { headers = (codes "etag", codes "1") ∷ [] }

headers-first : preferred_response gone tagged ≡ gone
unfolding preferred_response response_populated compare_responses str_eq str_lt
headers-first = refl

headers-first_swapped : preferred_response tagged gone ≡ tagged
unfolding preferred_response response_populated compare_responses str_eq str_lt
headers-first_swapped = refl

abbrev some_values : List Bytes
some_values = codes "a" ∷ codes "b" ∷ codes "a" ∷ []

merge_unique_ordered_lem_example :
    merge_unique_ordered some_values (codes "c" ∷ some_values)
    ≡ take max_query_param_values (firsts [] (some_values ++ (codes "c" ∷ some_values)))
merge_unique_ordered_lem_example = merge_unique_ordered_lem some_values (codes "c" ∷ some_values)

three_values :
    merge_unique_ordered some_values (codes "c" ∷ some_values)
    ≡ codes "a" ∷ codes "b" ∷ codes "c" ∷ []
unfolding merge_unique_ordered merge_loop contains str_eq
three_values = refl
