-- ===== src/Connectors/Kapture/Tickets.antt =====
-- `transform` and `get_schema` of the tickets connector. `str.strip`, `datetime.strptime` and
-- `int(float)` are parameters.
use turbocat.Prelude.{
  ℕ, String, Bool, true, false, Option, none, some, List, [], ◌∷◌, Result, ok, err, Exc, Kind,
  attribute_error, handle, str_eq, ◌||◌, if◌then◌else◌, ◌>>=◌,
}
use Prim.Native.String.{◌++◌ as append}
use turbocat.Python.Dict.{Dict}
use turbocat.Python.Value.{ℤ, pos, Value, null, bool, int, float, text, time, obj, to_dict, truthy}
use turbocat.Python.IntOf.{int_of}
use turbocat.Connectors.Base.Schema.{ColumnSchema, TableSchema}
use turbocat.Connectors.Source.{get_or_none}
use turbocat.Connectors.Razorpay.Orders.{column}

-- The keys of a dict display with the values that it computes, in order.
abbrev pub Cells : Type 0
Cells = List (String × Result Value)

unfoldable pub collect : Cells → Result (Dict Value)
collect [] = ok []
collect ((k, cell) ∷ cells) = do v ← cell; rest ← collect cells; ok ((k, v) ∷ rest)

abbrev pub no_attribute : Exc
no_attribute = record { kind = attribute_error; text = "object has no such attribute" }

unfoldable pub dict_of : Value → Result (Dict Value)
dict_of (obj fields) = ok (to_dict fields)
dict_of _ = err no_attribute

-- record.get(name) or {}
unfoldable pub part : String → Dict Value → Result (Dict Value)
unfolding dict_of
part name r = let v = get_or_none name r in if truthy v then dict_of v else ok []

-- r.get(name), and r.get(name) or None
abbrev pub raw : String → Dict Value → Result Value
raw name r = ok (get_or_none name r)

abbrev pub filled : String → Dict Value → Result Value
filled name r = let v = get_or_none name r in ok (if truthy v then v else null)

abbrev pub is_caught : Kind → Bool
is_caught Kind.value_error = true
is_caught Kind.type_error = true
is_caught _ = false

module _ (strip : String → String) (strptime : String → Option ℕ) (int_of_float : ℕ → Result ℤ)
    (now : ℕ) where
  abbrev pub text_of : Value → Result String
  text_of (text s) = ok (strip s)
  text_of _ = err no_attribute

  abbrev pub parsed : Option ℕ → Value
  parsed none = null
  parsed (some t) = time t

  -- `_parse_dt`
  unfoldable pub parse_dt : Value → Value → Result Value
  parse_dt date_str time_str =
      let clock = if truthy time_str then time_str else text "00:00:00" in
      let value : Result Value = (do
        date ← text_of date_str
        hour ← text_of clock
        ok (parsed (strptime (append date (append " " hour))))) in
      if truthy date_str then value else ok null

  -- `_to_int`. What is no number and no text is a TypeError.
  unfoldable pub to_int : Value → Result Value
  to_int (text s) =
      if str_eq s "null" || str_eq s ""
      then ok null
      else elim (int_of s) [ none ↦ ok null | some n ↦ ok (int n) ]
  to_int (int n) = ok (int n)
  to_int (bool true) = ok (int (pos 1))
  to_int (bool false) = ok (int (pos 0))
  to_int (float b) =
      handle (int_of_float b) (λ e. if is_caught e.kind then ok null else err e) (λ n. ok (int n))
  to_int _ = ok null

  abbrev pub cells : Dict Value → Dict Value → Dict Value → Dict Value → Dict Value → Cells
  cells r ticket customer contact folder_levels =
      ("ticket_id", raw "ticketId" r)
      ∷ ("task_id", raw "Task Id" ticket)
      ∷ ("task_title", raw "Task Title" ticket)
      ∷ ("status", raw "Status" ticket)
      ∷ ("sub_status", raw "Sub Status" ticket)
      ∷ ("priority", raw "Priority Name" ticket)
      ∷ ("tat", filled "TAT" ticket)
      ∷ ("sla", filled "SLA" ticket)
      ∷ ("created_at", parse_dt (get_or_none "createDate" r) (get_or_none "createTime" r))
      ∷ (
        "last_conversation_at",
        parse_dt (get_or_none "lastConversationDate" r) (get_or_none "lastConversationTime" r),
      )
      ∷ ("source_type", raw "sourceType" r)
      ∷ ("create_source_type", raw "createSourceType" r)
      ∷ ("create_reason", raw "createReason" r)
      ∷ ("landing_folder", filled "landingFolder" r)
      ∷ ("disposed_folder", filled "disposedFolder" r)
      ∷ ("folder_level_1", filled "Folder level 1" folder_levels)
      ∷ ("folder_level_2", filled "Folder level 2" folder_levels)
      ∷ ("folder_level_3", filled "Folder level 3" folder_levels)
      ∷ ("current_queue", filled "currentQueue" r)
      ∷ ("landing_queue", filled "landingQueue" r)
      ∷ ("dispose_by", filled "disposeBy" r)
      ∷ ("first_response_by", filled "firstResponseBy" r)
      ∷ ("last_response_by", filled "lastresponseBy" r)
      ∷ ("first_assign_emp", filled "firstAssignEmpName" r)
      ∷ ("reopen_count", to_int (get_or_none "reopenCount" r))
      ∷ ("dispose_count", to_int (get_or_none "disposeCount" r))
      ∷ ("customer_interaction_count", to_int (get_or_none "customerInteractioncount" r))
      ∷ ("agent_interaction_count", to_int (get_or_none "agentInteractionCount" r))
      ∷ ("total_interaction_count", to_int (get_or_none "totalInteractionCount" r))
      ∷ ("conversation_count", to_int (get_or_none "Conversation Count" ticket))
      ∷ ("ftr", raw "ftr" r)
      ∷ ("first_response_time", filled "firstResponseTime" r)
      ∷ ("avg_agent_response_time", filled "avgAgentResponseTime" r)
      ∷ ("avg_handling_time", filled "avgHandlingTime" r)
      ∷ ("time_to_resolve", filled "diffCreateAndResolve" r)
      ∷ ("ticket_url", raw "ticketUrl" r)
      ∷ ("email", filled "Email" ticket)
      ∷ ("phone", filled "Phone" ticket)
      ∷ ("customer_name", filled "Customer Name" customer)
      ∷ ("customer_code", filled "Customer Code" customer)
      ∷ ("contact_name", filled "Contact Person" contact)
      ∷ ("contact_email", filled "Email" contact)
      ∷ ("contact_phone", filled "Phone" contact)
      ∷ ("_extracted_at", ok (time now))
      ∷ []

  unfoldable pub transform_ticket : Value → Result (Dict Value)
  unfolding part collect
  transform_ticket value = do
    r ← dict_of value
    ticket ← part "ticket" r
    customer ← part "customer" r
    contact ← part "contact" r
    folder_levels ← part "dispositionFolderLevel" r
    collect (cells r ticket customer contact folder_levels)

abbrev optional : String → ColumnSchema
optional name = column name "string" false

abbrev counter : String → ColumnSchema
counter name = column name "integer" false

abbrev pub tickets_schema : TableSchema
tickets_schema = record {
  table_name = "kapture_tickets";
  columns =
      column "ticket_id" "string" true
      ∷ optional "task_id"
      ∷ optional "task_title"
      ∷ optional "status"
      ∷ optional "sub_status"
      ∷ optional "priority"
      ∷ optional "tat"
      ∷ optional "sla"
      ∷ column "created_at" "datetime" false
      ∷ column "last_conversation_at" "datetime" false
      ∷ optional "source_type"
      ∷ optional "create_source_type"
      ∷ optional "create_reason"
      ∷ optional "landing_folder"
      ∷ optional "disposed_folder"
      ∷ optional "folder_level_1"
      ∷ optional "folder_level_2"
      ∷ optional "folder_level_3"
      ∷ optional "current_queue"
      ∷ optional "landing_queue"
      ∷ optional "dispose_by"
      ∷ optional "first_response_by"
      ∷ optional "last_response_by"
      ∷ optional "first_assign_emp"
      ∷ counter "reopen_count"
      ∷ counter "dispose_count"
      ∷ counter "customer_interaction_count"
      ∷ counter "agent_interaction_count"
      ∷ counter "total_interaction_count"
      ∷ counter "conversation_count"
      ∷ optional "ftr"
      ∷ optional "first_response_time"
      ∷ optional "avg_agent_response_time"
      ∷ optional "avg_handling_time"
      ∷ optional "time_to_resolve"
      ∷ optional "ticket_url"
      ∷ optional "email"
      ∷ optional "phone"
      ∷ optional "customer_name"
      ∷ optional "customer_code"
      ∷ optional "contact_name"
      ∷ optional "contact_email"
      ∷ optional "contact_phone"
      ∷ column "_extracted_at" "datetime" true
      ∷ [];
}
