-- ===== src/Agent/Client.antt =====
-- internal/agent/mqtt.go: the agent's client of the broker. What the broker answers is an argument,
-- and a message that is published is a value.
use nodefoundry.Base.{
  ℕ, zero, suc, ◌+◌, ◌/◌, ◌%◌, Bool, true, false, Option, none, some, [], ◌∷◌, ◌++◌, ltb,
  if◌then◌else◌, Text, codes, ℤ, pos, negsuc,
}
use nodefoundry.Agent.{
  status_topic, command_topic, Handler, CommandMessage, DispatchError, dispatch,
}
use nodefoundry.Base.{GoMap}

-- The digits of a number, for `fuel` of them at most.
unfoldable pub digits : ℕ → ℕ → Text
digits zero n = []
digits (suc fuel) n =
    let higher = digits fuel (n / 10) in
    if ltb n 10 then (48 + n) ∷ [] else higher ++ (48 + n % 10) ∷ []

-- `%d` of an int64: 19 digits at most, after a sign.
unfoldable pub format_int : ℤ → Text
unfolding digits
format_int (pos n) = digits 19 n
format_int (negsuc n) = b'-' ∷ digits 19 (suc n)

-- The fields of `MQTTClient`, with whether it is connected, the channel `connectChan`, which holds
-- one value at most, and the topics that it subscribed.
pub record MqttClient : Type 0 where
  pub broker : Text
  pub mac : Text
  pub connected : Bool
  pub connect_chan : Bool
  pub subscribed : Option Text

-- `NewMQTTClient`
unfoldable pub new_mqtt_client : Text → Text → MqttClient
new_mqtt_client broker mac = record {
  broker = broker;
  mac = mac;
  connected = false;
  connect_chan = false;
  subscribed = none;
}

-- The identifier that `Connect` gives the client.
unfoldable pub client_id : MqttClient → Text
client_id c = codes "nodefoundry-agent-" ++ c.mac

-- `onConnect`, of whether the subscription succeeds.
unfoldable pub on_connect : Bool → MqttClient → MqttClient
on_connect succeeds c =
    if succeeds
    then record c { subscribed = some (command_topic c.mac); connect_chan = true }
    else c

pub data ConnectError : Type 0 where
  failed_to_connect connection_timeout : ConnectError

-- `Connect`, of whether the broker accepts the connection and the subscription; the channel is ready
-- when the callback sent to it within 30 seconds.
unfoldable pub connect : Bool → Bool → MqttClient → Option ConnectError × MqttClient
unfolding on_connect
connect accepts subscribes c =
    let called = on_connect subscribes (record c { connected = true }) in
    if accepts
    then if called.connect_chan
      then (none, record called { connect_chan = false })
      else (some connection_timeout, called)
    else (some failed_to_connect, c)

-- What `PublishStatus` sends to the broker.
pub record Publication : Type 0 where
  pub topic : Text
  pub payload : Text

-- What the agent reports, with the time in RFC 3339.
pub record Report : Type 0 where
  pub ip : Text
  pub hostname : Text
  pub uptime : ℤ
  pub timestamp : Text

-- The payload of `PublishStatus`.
unfoldable pub status_payload : Text → Report → Text
unfolding format_int
status_payload status r =
    codes "{\"status\":\""
    ++ (status
        ++ (codes "\",\"ip\":\""
            ++ (r.ip
                ++ (codes "\",\"hostname\":\""
                    ++ (r.hostname
                        ++ (codes "\",\"uptime\":"
                            ++ (format_int r.uptime
                                ++ (codes ",\"timestamp\":\""
                                    ++ (r.timestamp ++ codes "\"}")))))))))

-- `PublishStatus`
unfoldable pub publish_status : Text → Report → MqttClient → Publication
unfolding status_topic status_payload
publish_status status r c = record { topic = status_topic c.mac; payload = status_payload status r }

-- `onCommandMessage`, with the callback of main.go: what the dispatcher answers to the payload.
unfoldable pub on_command_message :
    {Args Error Payload : Type 0}
    → (Payload → Option (CommandMessage Args))
    → GoMap (Handler Args Error)
    → Payload
    → Option (DispatchError Error)
unfolding dispatch
on_command_message unmarshal handlers payload = dispatch handlers (unmarshal payload)

-- `Disconnect`
unfoldable pub disconnect : MqttClient → MqttClient
disconnect c = if c.connected then record c { connected = false } else c
