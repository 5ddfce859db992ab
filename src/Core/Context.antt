-- ===== src/Core/Context.antt =====
-- crates/mizan-core/src/context.rs: what a request is known by, and its builder. The builder's
-- setters each set one field of the context that it holds, and `build` gives that context.
use mizan.Prelude.{Bool, false, Option, none, some, Text}
use mizan.Core.Id.{Uuid}

pub record RequestContext : Type 0 where
  pub request_id : Uuid
  pub trace_id : Uuid
  pub user_id : Option Uuid
  pub api_key_id : Option Uuid
  pub provider : Option Text
  pub provider_id : Option Uuid
  pub route : Option Text
  pub route_id : Option Uuid
  pub method : Option Text
  pub path : Option Text
  pub model : Option Text
  pub streaming : Bool

-- `RequestContext::new`, with the fresh id as an argument.
abbrev pub new_context : Uuid → RequestContext
new_context request_id = record {
  request_id = request_id;
  trace_id = request_id;
  user_id = none;
  api_key_id = none;
  provider = none;
  provider_id = none;
  route = none;
  route_id = none;
  method = none;
  path = none;
  model = none;
  streaming = false;
}

-- The setters of `RequestContextBuilder`, in an order that suits a chain: the context comes last.
abbrev pub with_request_id : Uuid → RequestContext → RequestContext
with_request_id request_id context = record context { request_id = request_id }

abbrev pub with_trace_id : Uuid → RequestContext → RequestContext
with_trace_id trace_id context = record context { trace_id = trace_id }

abbrev pub with_user_id : Uuid → RequestContext → RequestContext
with_user_id user_id context = record context { user_id = some user_id }

abbrev pub with_api_key_id : Uuid → RequestContext → RequestContext
with_api_key_id api_key_id context = record context { api_key_id = some api_key_id }

abbrev pub with_provider : Text → RequestContext → RequestContext
with_provider provider context = record context { provider = some provider }

abbrev pub with_provider_id : Uuid → RequestContext → RequestContext
with_provider_id provider_id context = record context { provider_id = some provider_id }

abbrev pub with_route : Text → RequestContext → RequestContext
with_route route context = record context { route = some route }

abbrev pub with_route_id : Uuid → RequestContext → RequestContext
with_route_id route_id context = record context { route_id = some route_id }

abbrev pub with_method : Text → RequestContext → RequestContext
with_method method context = record context { method = some method }

abbrev pub with_path : Text → RequestContext → RequestContext
with_path path context = record context { path = some path }

abbrev pub with_model : Text → RequestContext → RequestContext
with_model model context = record context { model = some model }

abbrev pub with_streaming : Bool → RequestContext → RequestContext
with_streaming streaming context = record context { streaming = streaming }
