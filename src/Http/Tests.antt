-- ===== src/Http/Tests.antt =====
-- Tests of the messages, and examples of the theorems about them.
use ota_new.Common.{
  ◌≡◌, refl, [], ◌∷◌, ◌++◌, true, false, codes, arith, decimal, decimal_of, Text, All,
}
use ota_new.Http.Methods.{post, method_to_string}
use ota_new.Http.Statuses.{status_to_string}
use ota_new.Http.{
  HttpRequest, HttpResponse, new_request, new_response, init, get_value, set_value, less_case,
  dump_request, dump_response, request_line, status_line, print_headers, print_body,
}
use ota_new.Http.Printed.{Reads, length_lines, IsPlain}
use ota_new.Http.Merged.{dump_response-merges, merged}

abbrev crlf : Text
crlf = 13 ∷ (10 ∷ [])

abbrev query : HttpRequest
query = record (new_request 0x11 true) {
  method = post;
  path = codes "/ota/query";
  headers = (codes "Host", codes "a") ∷ [];
  body = codes "ab";
}

query_text :
    dump_request query
    ≡ codes "POST /ota/query HTTP/1.1"
      ++ (crlf
          ++ (codes "Connection: close"
              ++ (crlf
                  ++ (codes "Host:a"
                      ++ (crlf ++ (codes "Content-Length: 2" ++ (crlf ++ (crlf ++ codes "ab"))))))))
unfolding dump_request request_line print_headers print_body method_to_string new_request decimal
    decimal_of
query_text = refl

abbrev answer : HttpResponse
answer = record (new_response 0x11 true) { headers = (codes "Server", codes "sherry") ∷ [] }

answer_text :
    dump_response answer
    ≡ codes "HTTP/1.1 200 OK"
      ++ (crlf
          ++ (codes "Server: sherry"
              ++ (10 ∷ (13 ∷ (codes "connection: close" ++ (crlf ++ crlf))))))
unfolding dump_response status_line print_headers print_body status_to_string new_response decimal
    decimal_of
answer_text = refl

stays_open :
    (init (record query { headers = set_value (codes "Connection") (codes "Keep-Alive") [] })).close
    ≡ false
unfolding init set_value get_value new_request
stays_open = refl

sorted :
    set_value
      (codes "a")
      (codes "1")
      (set_value (codes "B") (codes "2") (set_value (codes "A") (codes "3") []))
    ≡ (codes "A", codes "1") ∷ ((codes "B", codes "2") ∷ [])
unfolding set_value less_case
sorted = refl

server-IsPlain : All IsPlain answer.headers
unfolding new_response
server-IsPlain = ((omega arith, omega arith, omega arith), tt)

dump_response-merges_example :
    Reads
      (dump_response answer)
      (status_line answer ∷ (merged answer ∷ length_lines (codes "content-length: ") answer.body))
      answer.body
unfolding new_response
dump_response-merges_example = dump_response-merges answer tt server-IsPlain
