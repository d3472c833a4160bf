-- ===== src/Assembly/Builder/Integrity.antt =====
-- IntegrityBuilder: what was captured of a span, and the markers of what was not.
use wardex_sdk.Prelude.{
  ℕ, Bool, true, false, ◌&&◌, Option, none, some, List, [], ◌∷◌, ◌++◌, if◌then◌else◌,
}
use wardex_sdk.Assembly.Integrity.{Limitation}
use wardex_sdk.Assembly.Parentage.Resolve.{is_in}
use wardex_sdk.Spans.Span.{CaptureIntegrity}

pub record IntegrityBuilder : Type 0 where
  pub req_headers : Bool
  pub req_body : Bool
  pub resp_headers : Bool
  pub resp_body : Bool
  pub is_redacted : Bool
  pub is_truncated : Bool
  pub dropped : ℕ
  pub markers : List Limitation
  pub touched : Bool

abbrev pub new_integrity : IntegrityBuilder
new_integrity = record {
  req_headers = false;
  req_body = false;
  resp_headers = false;
  resp_body = false;
  is_redacted = false;
  is_truncated = false;
  dropped = 0;
  markers = [];
  touched = false;
}

abbrev pub request_headers : Bool → Bool → IntegrityBuilder → IntegrityBuilder
request_headers attempted fine b = record b { touched = true; req_headers = attempted && fine }

abbrev pub request_body : Bool → Bool → IntegrityBuilder → IntegrityBuilder
request_body attempted fine b = record b { touched = true; req_body = attempted && fine }

abbrev pub response_headers : Bool → Bool → IntegrityBuilder → IntegrityBuilder
response_headers attempted fine b = record b { touched = true; resp_headers = attempted && fine }

abbrev pub response_body : Bool → Bool → IntegrityBuilder → IntegrityBuilder
response_body attempted fine b = record b { touched = true; resp_body = attempted && fine }

abbrev pub truncated : Bool → IntegrityBuilder → IntegrityBuilder
truncated value b = record b { touched = true; is_truncated = value }

abbrev pub redacted : Bool → IntegrityBuilder → IntegrityBuilder
redacted value b = record b { touched = true; is_redacted = value }

abbrev pub dropped_chunks : ℕ → IntegrityBuilder → IntegrityBuilder
dropped_chunks count b = record b { touched = true; dropped = count }

unfoldable pub add_marker : Limitation → List Limitation → List Limitation
unfolding is_in
add_marker marker markers = if is_in marker markers then markers else markers ++ (marker ∷ [])

unfoldable pub limitation : Limitation → IntegrityBuilder → IntegrityBuilder
unfolding add_marker
limitation marker b = record b { touched = true; markers = add_marker marker b.markers }

unfoldable pub build : IntegrityBuilder → Option CaptureIntegrity
build b =
    if b.touched
    then some (record {
      request_headers_captured = b.req_headers;
      request_body_captured = b.req_body;
      response_headers_captured = b.resp_headers;
      response_body_captured = b.resp_body;
      redacted = b.is_redacted;
      truncated = b.is_truncated;
      dropped_chunk_count = b.dropped;
      limitations = b.markers;
    })
    else none
