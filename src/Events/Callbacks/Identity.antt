-- ===== src/Events/Callbacks/Identity.antt =====
-- What becomes of the id of a callback log on its way from the request to the response.
use insight_collector.Prelude.{
  ℕ, String, Option, none, some, ◌==◌, if◌then◌else◌, ◌≡◌, ◌≢◌, refl, ◌∙◌, ap, sym, not, ◌&&◌,
  arith,
}
use insight_collector.Records.{UrlEncoding}
use insight_collector.Events.{Point, Floats, Record, Stores}
use insight_collector.Events.Callbacks.{
  ObjectJson, CallbackLogs, save_callback_logs, unmarshal_request, handle_callback_logs, to_point,
  map_to_response,
}
use insight_collector.Events.Callbacks.Roundtrip.{map_to_response-to_point}

-- The point of a result, or a given one
abbrev or_else : Option Point → Point → Point
or_else none q = q
or_else (some p) q = p

no_id : (t created : String) → (if not (t == "") && not ("" == "") then created else "") ≡ ""
no_id t created = ground arith

module _ {Object : Type 0} (json : ObjectJson Object) where
  -- The job of a saved request writes the point of the request without its id.
  pub handle-save_callback_logs :
      (request_id fallback : String) (req : CallbackLogs Object)
      → handle_callback_logs json (save_callback_logs json request_id fallback req)
        ≡ some (to_point json (record req { callback_id = "" }))
  unfolding handle_callback_logs save_callback_logs unmarshal_request
  handle-save_callback_logs request_id fallback req = refl

  -- However a callback log is saved, with whatever id: the job of its payload writes a point, and
  -- the response of a record that gives back this point has no callback id and no record id. JSON
  -- is to decode what it has encoded, and encodes nothing as the empty text.
  pub callback_id_is_lost :
      (floats : Floats) (base64 : UrlEncoding) (format : ℕ → String) (request_id fallback : String)
      (req : CallbackLogs Object) (p : Point) (r : Record)
      → ((s : String)
          → json.marshal req.payloads ≡ some s
          → (s ≢ "") × (json.unmarshal s ≡ some req.payloads))
      → handle_callback_logs json (save_callback_logs json request_id fallback req) ≡ some p
      → Stores p r
      → ((map_to_response json floats base64 format r).callback_id ≡ "")
        × ((map_to_response json floats base64 format r).id ≡ "")
  callback_id_is_lost floats base64 format request_id fallback req p r decodes handled stored =
      let saved = record req { callback_id = "" } in
      let same : to_point json saved ≡ p =
        ap (λ o. or_else o p) (sym (handle-save_callback_logs request_id fallback req) ∙ handled) in
      let shows =
        map_to_response-to_point json floats base64 format saved r decodes (rw same stored) in
      (ap (λ x. x.callback_id) shows, ap (λ x. x.id) shows ∙ no_id (format req.timestamp) _)
