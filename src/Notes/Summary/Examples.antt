-- ===== src/Notes/Summary/Examples.antt =====
-- Summaries that are kept and refused.
use goal_slot_api.Base.{suc, ◌≡◌, refl, some, map, length}
use goal_slot_api.Db.{Text}
use goal_slot_api.Notes.Text.{units, to_lower, offset_of, trim_end, trim_start, span, replace_all}
use goal_slot_api.Notes.Summary.{
  SanitizeSummaryHtmlResult, sanitized, rejected, sanitize_summary_html, sanitize_from, scan_round,
  markup_at, tag_at, tag_within, opening_tag, open_named, alias, open_element, skip_content,
  closing_tag, close_top, comment_at, declaration_at, finish, strip_from,
}
use goal_slot_api.Notes.Markup.{
  find_tag_end, tag_end_from, summary_attributes_for, attribute, attribute_value, attributes_from,
  begins_entity, escape_ampersands, escape_summary_text, link_attributes, parse_attributes,
  safe_link_scheme,
}
use goal_slot_api.Notes.Summary.Accepted.{IsSafe, sanitize_summary_html-IsSafe}

-- The lower case of a text of ASCII letters.
abbrev lower : Text → Text
lower t = map to_lower t

abbrev draft : Text
draft =
    units "<div><P class=x>a<script>alert(1)</script><b>b</b><a href='javascript:1'>c</a></p></div>"

kept :
    sanitize_summary_html lower 200 draft ≡ some (sanitized (units "<p>a<strong>b</strong>c</p>"))
unfolding sanitize_summary_html sanitize_from scan_round markup_at tag_at tag_within opening_tag
    open_named alias open_element skip_content closing_tag close_top comment_at declaration_at
    finish strip_from find_tag_end tag_end_from summary_attributes_for attribute attribute_value
    attributes_from begins_entity escape_ampersands escape_summary_text link_attributes
    parse_attributes safe_link_scheme offset_of trim_end trim_start span replace_all
kept = refl

cut_short :
    sanitize_summary_html lower 20 (units "<p>a<em>b")
    ≡ some (rejected (units "<em> is never closed, so the response was cut short"))
unfolding sanitize_summary_html sanitize_from scan_round markup_at tag_at tag_within opening_tag
    open_named alias open_element skip_content closing_tag close_top comment_at declaration_at
    finish strip_from find_tag_end tag_end_from summary_attributes_for attribute attribute_value
    attributes_from begins_entity escape_ampersands escape_summary_text link_attributes
    parse_attributes safe_link_scheme offset_of trim_end trim_start span replace_all
cut_short = refl

sanitize_summary_html-IsSafe_example :
    (result : SanitizeSummaryHtmlResult) × (sanitize_summary_html lower (suc (length draft)) draft
      ≡ some result)
    × IsSafe result
sanitize_summary_html-IsSafe_example = sanitize_summary_html-IsSafe lower draft
